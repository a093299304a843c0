-- ===== src/WriteOnce/Block.antt =====
-- `WriteOnceBlock` of src/table-backend-writeonce.cc: the sizes of keys and values, and their bytes
-- joined.
pub mod Entries
pub mod Offsets
use cantera_table.Shared.{
  ℕ, zero, suc, ◌+◌, ◌-◌, ◌^◌, List, [], ◌∷◌, ◌++◌, Bool, ltb, leb, ◌==◌, if◌then◌else◌, length,
  take, drop, last_or,
}
use cantera_table.Shared.Words.{u32}
use cantera_table.Result.{Result, ok, err, overrun, require, guard, ◌>>=◌, ◌>>◌}
use cantera_table.WriteOnce.Codec.{Codec}

pub record Block : Type 0 where
  pub key_size : List ℕ
  pub key_data : List ℕ
  pub value_size : List ℕ
  pub value_data : List ℕ

-- Clear
abbrev pub empty_block : Block
empty_block = record { key_size = []; key_data = []; value_size = []; value_data = [] }

abbrev pub num_entries : Block → ℕ
num_entries b = length b.key_size

-- The sizes are kept in 32 bits.
unfoldable pub add : Block → List ℕ → List ℕ → Block
add b key value = record {
  key_size = b.key_size ++ (u32 (length key) ∷ []);
  key_data = b.key_data ++ key;
  value_size = b.value_size ++ (u32 (length value) ∷ []);
  value_data = b.value_data ++ value;
}

-- The last of the sizes.
abbrev pub last_size : List ℕ → ℕ
last_size [] = 0
last_size (n ∷ ns) = last_or n ns

-- GetLaskKey: KJ_REQUIRE(num_entries()), and the last key_size_.back() bytes.
unfoldable pub get_last_key : Block → Result (List ℕ)
get_last_key b =
    if num_entries b == 0
    then err require
    else ok (drop (length b.key_data - last_size b.key_size) b.key_data)

-- std::accumulate(..., size_t(0))
abbrev pub total : List ℕ → ℕ
total [] = 0
total (n ∷ ns) = n + total ns

-- [data, data + size), and what is behind it.
unfoldable pub cut : ℕ → List ℕ → Result (List ℕ × List ℕ)
cut size from = if leb size (length from) then ok (take size from, drop size from) else err overrun

module _ (c : Codec (2 ^ 32)) where
  -- EstimateSize
  unfoldable pub estimate_size : Block → ℕ
  estimate_size b =
      length b.key_data + length b.value_data + c.space b.key_size + c.space b.value_size

  -- The loop of the seekable format; `kd` and `vd` are the data from k_offset and v_offset on.
  unfoldable pub marshal_entries : List ℕ → List ℕ → List ℕ → List ℕ → List ℕ
  marshal_entries [] vs kd vd = []
  marshal_entries (k ∷ ks) [] kd vd = []
  marshal_entries (k ∷ ks) (v ∷ vs) kd vd =
      (c.value_encode k ++ (c.value_encode v ++ (take k kd ++ take v vd)))
      ++ marshal_entries ks vs (drop k kd) (drop v vd)

  unfoldable pub marshal : Block → Bool → List ℕ
  marshal b seekable =
      if num_entries b == 0
      then []
      else if seekable
      then marshal_entries b.key_size b.value_size b.key_data b.value_data
      else c.encode b.key_size ++ (c.encode b.value_size ++ (b.key_data ++ b.value_data))

  unfoldable pub unmarshal_entries : ℕ → List ℕ → Result Block
  unmarshal_entries zero buffer = ok empty_block
  unmarshal_entries (suc n) buffer = do
    k ← c.value_decode buffer
    v ← c.value_decode k.1
    kd ← cut k.0 v.1
    vd ← cut v.0 kd.1
    b ← unmarshal_entries n vd.1
    ok record {
      key_size = k.0 ∷ b.key_size;
      key_data = kd.0 ++ b.key_data;
      value_size = v.0 ∷ b.value_size;
      value_data = vd.0 ++ b.value_data;
    }

  unfoldable pub unmarshal_arrays : ℕ → List ℕ → Result Block
  unmarshal_arrays num buffer = do
    ks ← c.decode num buffer
    vs ← c.decode num ks.1
    guard (leb (total ks.0 + total vs.0) (length vs.1)) require
    ok record {
      key_size = ks.0;
      key_data = take (total ks.0) vs.1;
      value_size = vs.0;
      value_data = take (total vs.0) (drop (total ks.0) vs.1);
    }

  unfoldable pub unmarshal : List ℕ → ℕ → Bool → Result Block
  unmarshal buffer num seekable =
      if num == 0
      then ok empty_block
      else if seekable
      then unmarshal_entries num buffer
      else unmarshal_arrays num buffer

  -- The bytes of one entry in the seekable format.
  abbrev pub entry_space : ℕ → ℕ → ℕ
  entry_space k v = (c.value_space k + k) + (c.value_space v + v)

  -- The size of the first `num` entries.
  unfoldable pub offset_in : List ℕ → List ℕ → ℕ → Result ℕ
  offset_in ks vs zero = ok 0
  offset_in [] vs (suc n) = err overrun
  offset_in (k ∷ ks) [] (suc n) = err overrun
  offset_in (k ∷ ks) (v ∷ vs) (suc n) = do r ← offset_in ks vs n; ok (entry_space k v + r)

  unfoldable pub get_entry_offset : Block → ℕ → Result ℕ
  get_entry_offset b num = offset_in b.key_size b.value_size num

  -- The loop ends as soon as the offset is not positive.
  unfoldable pub number_in : List ℕ → List ℕ → ℕ → Result ℕ
  number_in ks vs zero = ok 0
  number_in [] vs (suc o) = err overrun
  number_in (k ∷ ks) [] (suc o) = err overrun
  number_in (k ∷ ks) (v ∷ vs) (suc o) = do n ← number_in ks vs (suc o - entry_space k v); ok (suc n)

  unfoldable pub get_entry_number : Block → ℕ → Result ℕ
  get_entry_number b offset = number_in b.key_size b.value_size offset

-- InitializeKeys and InitializeValues: the joined data, cut by the sizes.
unfoldable pub views : List ℕ → List ℕ → List (List ℕ)
views [] from = []
views (n ∷ ns) from = take n from ∷ views ns (drop n from)

unfoldable pub keys : Block → List (List ℕ)
keys b = views b.key_size b.key_data

unfoldable pub values : Block → List (List ℕ)
values b = views b.value_size b.value_data
