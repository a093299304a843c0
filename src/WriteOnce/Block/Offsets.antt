-- ===== src/WriteOnce/Block/Offsets.antt =====
-- `GetEntryOffset` and `GetEntryNumber` of src/table-backend-writeonce.cc.
use cantera_table.Shared.{
  ℕ, zero, suc, ◌+◌, ◌-◌, ◌<◌, ◌≤◌, ◌^◌, List, [], ◌∷◌, ◌≡◌, refl, length, All, arith,
}
use cantera_table.Result.{ok, ◌>>=◌}
use cantera_table.WriteOnce.Codec.{Codec}
use cantera_table.WriteOnce.Block.{
  Block, offset_in, number_in, entry_space, get_entry_offset, get_entry_number,
}

back : (a b : ℕ) → (a + b) - a ≡ b
back a b = omega arith

module _ (c : Codec (2 ^ 32)) where
  number_step :
      (k v : ℕ) (ks vs : List ℕ) (o : ℕ)
      → 1 ≤ o
      → number_in c (k ∷ ks) (v ∷ vs) o
        ≡ (number_in c ks vs (o - entry_space c k v) >>= λ n. ok (suc n))
  unfolding number_in
  number_step k v ks vs zero h = absurd (omega arith)
  number_step k v ks vs (suc o) h = refl

  number_in-offset_in :
      (ks vs : List ℕ) (n : ℕ)
      → All (λ k. k < 2 ^ 32) ks
      → n ≤ length ks
      → n ≤ length vs
      → (o : ℕ) × (offset_in c ks vs n ≡ ok o) × (n ≤ o) × (number_in c ks vs o ≡ ok n)
  unfolding offset_in number_in
  number_in-offset_in ks vs zero small hk hv = (0, refl, omega arith, refl)
  number_in-offset_in [] vs (suc n) small hk hv = absurd (omega arith)
  number_in-offset_in (k ∷ ks) [] (suc n) small hk hv = absurd (omega arith)
  number_in-offset_in (k ∷ ks) (v ∷ vs) (suc n) small hk hv =
      let r = number_in-offset_in ks vs n small.1 (omega arith) (omega arith) in
      let pos = c.value_space_pos k small.0 in
      (
        entry_space c k v + r.0,
        rw r.1,
        omega (arith, pos, r.2),
        rw
            (
              number_step k v ks vs (entry_space c k v + r.0) (omega (arith, pos)),
              back (entry_space c k v) r.0,
              r.3,
            )
            refl,
      )

  -- In a block whose keys are shorter than 2 ^ 32 bytes, the offset that GetEntryOffset computes for entry n is
  -- one that GetEntryNumber takes back to n, for every n up to the number of entries.
  pub get_entry_number-get_entry_offset :
      (b : Block) (n : ℕ)
      → All (λ k. k < 2 ^ 32) b.key_size
      → length b.value_size ≡ length b.key_size
      → n ≤ length b.key_size
      → (o : ℕ) × (get_entry_offset c b n ≡ ok o) × (get_entry_number c b o ≡ ok n)
  unfolding get_entry_offset get_entry_number
  get_entry_number-get_entry_offset b n small same h =
      let r = number_in-offset_in b.key_size b.value_size n small h (omega (arith, same, h)) in
      (r.0, r.1, r.3)
