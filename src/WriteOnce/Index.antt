-- ===== src/WriteOnce/Index.antt =====
-- `WriteOnceIndex` of src/table-backend-writeonce.cc: for each block its size, the number of its entries
-- and its last key.
pub mod RoundTrip
use cantera_table.Shared.{
  ℕ, zero, suc, ◌+◌, ◌-◌, ◌^◌, List, [], ◌∷◌, ◌++◌, Bool, leb, ◌==◌, if◌then◌else◌, length, take,
  get_elem?, Option, none, some,
}
use cantera_table.Shared.Strings.{string_lt}
use cantera_table.Shared.Words.{u32}
use cantera_table.Result.{Result, ok, err, overrun, require, guard, ◌>>=◌, ◌>>◌}
use cantera_table.WriteOnce.Codec.{Codec, Storage}
use cantera_table.WriteOnce.Block.{Block, get_last_key, total, views}

pub record Index : Type 0 where
  pub size : List ℕ
  pub num_entries : List ℕ
  pub key_size : List ℕ
  pub key_data : List ℕ

-- Clear
abbrev pub empty_index : Index
empty_index = record { size = []; num_entries = []; key_size = []; key_data = [] }

abbrev pub num_blocks : Index → ℕ
num_blocks i = length i.key_size

-- sizeof(struct CA_wo_header)
abbrev pub header_size : ℕ
header_size = 24

unfoldable pub get_index_offset : Index → ℕ
get_index_offset i = header_size + total i.size

unfoldable pub get_block_offset : Index → ℕ → ℕ
get_block_offset i num = header_size + total (take num i.size)

-- A vector's element; C++ leaves a read past its end undefined.
unfoldable pub element {ℓ} : {A : Type ℓ} → List A → ℕ → Result A
element xs n = elim (get_elem? xs n) [ none ↦ err overrun | some x ↦ ok x ]

-- Add: `size` comes as uint32_t, and the other numbers are kept in 32 bits.
unfoldable pub add : Index → Block → ℕ → Result Index
add i block size = do
  last_key ← get_last_key block
  ok record {
    size = i.size ++ (u32 size ∷ []);
    num_entries = i.num_entries ++ (u32 (length block.key_size) ∷ []);
    key_size = i.key_size ++ (u32 (length last_key) ∷ []);
    key_data = i.key_data ++ last_key;
  }

module _ (s : Storage) where
  unfoldable pub marshal : Index → List ℕ
  marshal i =
      if num_blocks i == 0
      then []
      else s.sizes.value_encode (num_blocks i)
        ++ (s.sizes.encode i.size
            ++ (s.numbers.encode i.num_entries ++ (s.numbers.encode i.key_size ++ i.key_data)))

  unfoldable pub unmarshal_blocks : ℕ → List ℕ → Result Index
  unmarshal_blocks num buffer = do
    size ← s.sizes.decode num buffer
    entries ← s.numbers.decode num size.1
    keys ← s.numbers.decode num entries.1
    guard (leb (total keys.0) (length keys.1)) require
    ok record {
      size = size.0;
      num_entries = entries.0;
      key_size = keys.0;
      key_data = take (total keys.0) keys.1;
    }

  unfoldable pub unmarshal : List ℕ → Result Index
  unmarshal buffer = do
    num ← s.sizes.value_decode buffer
    if num.0 == 0 then ok empty_index else unmarshal_blocks num.0 num.1

-- InitializeKeys
unfoldable pub last_keys : Index → List (List ℕ)
last_keys i = views i.key_size i.key_data

-- std::lower_bound: the first place whose string is not less than `key`.
unfoldable pub lower_bound : List (List ℕ) → List ℕ → ℕ
lower_bound [] key = 0
lower_bound (k ∷ ks) key =
    let later = suc (lower_bound ks key) in if string_lt k key then later else 0

unfoldable pub find_block_by_key : Index → List ℕ → ℕ
find_block_by_key i key = lower_bound (last_keys i) key
