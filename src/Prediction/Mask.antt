-- ===== src/Prediction/Mask.antt =====
-- `prob_mask`: one bit for each record, bit `i & 7` of byte `i >> 3`, set where the record has bands.
pub mod Laws
use Prim.Native.Nat.{bit_and, bit_or}
use cantera_table.Shared.{
  ℕ, ◌+◌, ◌-◌, ◌*◌, ◌/◌, ◌%◌, ◌≤◌, ◌<◌, ◌≡◌, refl, List, [], ◌∷◌, Bool, true, false, not, ◌==◌, ltb,
  leb, ◌&&◌, ◌||◌, if◌then◌else◌, length, replicate, get_or, set, arith, All, length-set,
  length-replicate,
}
use cantera_table.Shared.Words.{u8, shl}
use cantera_table.Score.{OffsetScore, has_bands}

-- 0 != (prob_mask[i >> 3] & (1 << (i & 7)))
unfoldable pub test_bit : List ℕ → ℕ → Bool
test_bit mask i = not (bit_and (get_or mask (i / 8) 0) (shl 1 (i % 8)) == 0)

-- prob_mask[i >> 3] |= (1 << (i & 7))
unfoldable pub set_bit : List ℕ → ℕ → List ℕ
set_bit mask i = set mask (i / 8) (u8 (bit_or (get_or mask (i / 8) 0) (shl 1 (i % 8))))

unfoldable pub mask_from : ℕ → List OffsetScore → List ℕ → List ℕ
mask_from i [] mask = mask
mask_from i (v ∷ vs) mask = mask_from (i + 1) vs (if has_bands v then set_bit mask i else mask)

unfoldable pub build_mask : List OffsetScore → List ℕ
build_mask values = mask_from 0 values (replicate ((length values + 7) / 8) 0)
