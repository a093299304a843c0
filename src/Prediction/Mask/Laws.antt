-- ===== src/Prediction/Mask/Laws.antt =====
-- The mask that is built tells for each record whether it has bands.
use Prim.Native.Nat.{bit_or}
use native.Mathlib.Nat.{one-le-pow}
use native.Mathlib.Decide.{ℕ_discrete}
use cantera_table.Shared.{
  ℕ, zero, suc, ◌+◌, ◌*◌, ◌/◌, ◌%◌, ◌≤◌, ◌<◌, ◌≡◌, refl, List, [], ◌∷◌, Bool, true, false, ◌==◌,
  if◌then◌else◌, length, replicate, get_or, arith, All, ◌∙◌, length-set, length-replicate,
  get_or-set_self, All-set, All-get_or, All-replicate, get_or-set_ne,
}
use cantera_table.Shared.Words.{u8, shl, zero-and}
use cantera_table.Shared.Bytes.{IsByte, bit_set}
use cantera_table.Score.{OffsetScore, has_bands}
use cantera_table.Prediction.Mask.{test_bit, set_bit, mask_from, build_mask}

pub set_bit-IsBytes : (mask : List ℕ) (i : ℕ) → All IsByte mask → All IsByte (set_bit mask i)
unfolding set_bit
set_bit-IsBytes mask i h = All-set IsByte mask (i / 8) _ h (omega arith)

length-set_bit : (mask : List ℕ) (i : ℕ) → length (set_bit mask i) ≡ length mask
unfolding set_bit
length-set_bit mask i = length-set mask (i / 8) _

test_bit-set_bit :
    (mask : List ℕ) (i j : ℕ)
    → All IsByte mask
    → i / 8 < length mask
    → test_bit (set_bit mask i) j ≡ (if i == j then true else test_bit mask j)
unfolding test_bit set_bit
test_bit-set_bit mask i j bytes room = elim (ℕ_discrete (i / 8) (j / 8)) [
  | yes same ↦ ground (
    arith,
    same,
    get_or-set_self mask (i / 8) (u8 (bit_or (get_or mask (i / 8) 0) (shl 1 (i % 8)))) 0 room,
    bit_set (get_or mask (i / 8) 0) (i % 8) (j % 8)
        (All-get_or IsByte mask (i / 8) 0 bytes (omega arith)),
    one-le-pow (j % 8) 2,
  )
  | no other ↦ ground (
    arith,
    get_or-set_ne mask (i / 8) (j / 8) (u8 (bit_or (get_or mask (i / 8) 0) (shl 1 (i % 8)))) 0
        other,
  )
]

-- The bits from number `i` on are those of the records `vs`.
abbrev pub Tells : List ℕ → ℕ → List OffsetScore → Type 0
Tells mask i [] = Unit {0}
Tells mask i (v ∷ vs) = (test_bit mask i ≡ has_bands v) × Tells mask (i + 1) vs

get_or-replicate : (n j : ℕ) → get_or (replicate {A = ℕ} n 0) j 0 ≡ 0
get_or-replicate zero j = refl
get_or-replicate (suc n) zero = refl
get_or-replicate (suc n) (suc j) = get_or-replicate n j

test_bit-replicate : (n j : ℕ) → test_bit (replicate n 0) j ≡ false
unfolding test_bit
test_bit-replicate n j = rw (get_or-replicate n (j / 8), zero-and) refl

-- Later rounds of the loop leave a bit alone.
test_bit-mask_from :
    (vs : List OffsetScore) (mask : List ℕ) (i j : ℕ)
    → All IsByte mask
    → i + length vs ≤ 8 * length mask
    → j < i
    → test_bit (mask_from i vs mask) j ≡ test_bit mask j
unfolding mask_from
test_bit-mask_from [] mask i j bytes room before = refl
test_bit-mask_from (v ∷ vs) mask i j bytes room before = ground (
  arith,
  test_bit-mask_from vs mask (i + 1) j bytes,
  test_bit-mask_from vs (set_bit mask i) (i + 1) j (set_bit-IsBytes mask i bytes),
  length-set_bit mask i,
  test_bit-set_bit mask i j bytes,
)

-- The bits from `i` on are clear before the loop comes to them.
if_either : {A : Type 0} (P : A → Type 0) (b : Bool) {x y : A} → P x → P y → P (if b then x else y)
if_either P true px py = px
if_either P false px py = py

mask_from-Tells :
    (vs : List OffsetScore) (mask : List ℕ) (i : ℕ)
    → All IsByte mask
    → i + length vs ≤ 8 * length mask
    → ((j : ℕ) → i ≤ j → test_bit mask j ≡ false)
    → Tells (mask_from i vs mask) i vs
unfolding mask_from
mask_from-Tells [] mask i bytes room clear = tt
mask_from-Tells (v ∷ vs) mask i bytes room clear = (
  test_bit-mask_from vs m (i + 1) i m_bytes m_room (omega arith) ∙ now,
  mask_from-Tells vs m (i + 1) m_bytes m_room later,
)
  where
    m : List ℕ
    m = if has_bands v then set_bit mask i else mask

    m_bytes : All IsByte m
    m_bytes = if_either (All IsByte) (has_bands v) (set_bit-IsBytes mask i bytes) bytes

    m_room : i + 1 + length vs ≤ 8 * length m
    m_room = ground (arith, length-set_bit mask i)

    now : test_bit m i ≡ has_bands v
    now = ground (arith, test_bit-set_bit mask i i bytes, clear i)

    later : (j : ℕ) → i + 1 ≤ j → test_bit m j ≡ false
    later j h = ground (arith, test_bit-set_bit mask i j bytes, clear j)

pub build_mask-Tells : (vs : List OffsetScore) → Tells (build_mask vs) 0 vs
unfolding build_mask
build_mask-Tells vs =
    mask_from-Tells vs (replicate ((length vs + 7) / 8) 0) 0
      (All-replicate IsByte _ 0 (omega arith))
      (omega (arith, length-replicate {A = ℕ} ((length vs + 7) / 8) 0))
      (λ j h. test_bit-replicate _ j)

length-mask_from :
    (vs : List OffsetScore) (mask : List ℕ) (i : ℕ) → length (mask_from i vs mask) ≡ length mask
unfolding mask_from
length-mask_from [] mask i = refl
length-mask_from (v ∷ vs) mask i = ground (
  arith,
  length-mask_from vs (if has_bands v then set_bit mask i else mask) (i + 1),
  length-set_bit mask i,
)

mask_from-IsBytes :
    (vs : List OffsetScore) (mask : List ℕ) (i : ℕ)
    → All IsByte mask
    → All IsByte (mask_from i vs mask)
unfolding mask_from
mask_from-IsBytes [] mask i h = h
mask_from-IsBytes (v ∷ vs) mask i h =
    mask_from-IsBytes vs _ (i + 1)
      (if_either (All IsByte) (has_bands v) (set_bit-IsBytes mask i h) h)

pub length-build_mask : (vs : List OffsetScore) → length (build_mask vs) ≡ (length vs + 7) / 8
unfolding build_mask
length-build_mask vs = length-mask_from vs _ 0 ∙ length-replicate {A = ℕ} ((length vs + 7) / 8) 0

pub build_mask-IsBytes : (vs : List OffsetScore) → All IsByte (build_mask vs)
unfolding build_mask
build_mask-IsBytes vs = mask_from-IsBytes vs _ 0 (All-replicate IsByte _ 0 (omega arith))
