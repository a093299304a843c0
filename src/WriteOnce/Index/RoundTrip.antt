-- ===== src/WriteOnce/Index/RoundTrip.antt =====
-- The index of a write-once table through `Marshal` and back.
use cantera_table.Shared.{
  take_append, ◌+◌, ◌*◌, ◌^◌, ◌≤◌, ◌<◌, ◌≡◌, [], ◌++◌, true, false, leb, ◌==◌, length, take, All,
  append-nil, length-append, arith,
}
use cantera_table.Result.{ok}
use cantera_table.WriteOnce.Codec.{Storage}
use cantera_table.WriteOnce.Block.{total}
use cantera_table.WriteOnce.Index.{Index, marshal, unmarshal, unmarshal_blocks}

-- What the index of a table has: as many numbers of each kind, within their widths.
pub record IsIndex (i : Index) : Type 0 where
  pub sizes : length i.size ≡ length i.key_size
  pub counts : length i.num_entries ≡ length i.key_size
  pub size_fits : All (λ n. n < 2 ^ 64) i.size
  pub count_fits : All (λ n. n < 2 ^ 32) i.num_entries
  pub key_fits : All (λ n. n < 2 ^ 32) i.key_size
  pub keys : total i.key_size ≡ length i.key_data
  pub some_block : 1 ≤ length i.key_size
  pub few : length i.key_size < 2 ^ 64

-- WriteOnceIndex::Unmarshal reads back what Marshal wrote of an index with at least one block whose numbers
-- fit their widths.
pub unmarshal-marshal_index :
    (s : Storage) (i : Index) → IsIndex i → unmarshal s (marshal s i) ≡ ok i
unfolding marshal unmarshal unmarshal_blocks
unmarshal-marshal_index s i v =
    let behind = s.numbers.encode i.num_entries ++ (s.numbers.encode i.key_size ++ i.key_data) in
    let some_left : (length i.key_size == 0) ≡ false = ground (arith, v.some_block) in
    let all_there : leb (length i.key_data) (length i.key_data) ≡ true = ground arith in
    let whole : take (length i.key_data) i.key_data ≡ i.key_data =
      rw (append-nil i.key_data) at (take_append i.key_data []) in
    let tail = s.numbers.encode i.key_size ++ i.key_data in
    let read_sizes : s.sizes.decode (length i.key_size) (s.sizes.encode i.size ++ behind)
        ≡ ok (i.size, behind) =
      rw v.sizes at (s.sizes.decode-encode i.size behind v.size_fits) in
    let read_counts : s.numbers.decode (length i.key_size) behind ≡ ok (i.num_entries, tail) =
      rw v.counts at (s.numbers.decode-encode i.num_entries tail v.count_fits) in
    rw (
      some_left,
      s.sizes.value_decode-value_encode (length i.key_size) (s.sizes.encode i.size ++ behind) v.few,
      some_left,
      read_sizes,
      read_counts,
      s.numbers.decode-encode i.key_size i.key_data v.key_fits,
      v.keys,
      all_there,
      whole,
    )

pub length-marshal-le :
    (s : Storage) (i : Index)
    → IsIndex i
    → length (marshal s i) ≤ 10 + 30 * length i.key_size + length i.key_data
unfolding marshal
length-marshal-le s i v =
    let behind = s.numbers.encode i.num_entries ++ (s.numbers.encode i.key_size ++ i.key_data) in
    let some_left : (length i.key_size == 0) ≡ false = ground (arith, v.some_block) in
    rw
      (
        some_left,
        length-append (s.sizes.value_encode (length i.key_size)) (s.sizes.encode i.size ++ behind),
        length-append (s.sizes.encode i.size) behind,
        length-append (s.numbers.encode i.num_entries) (s.numbers.encode i.key_size ++ i.key_data),
        length-append (s.numbers.encode i.key_size) i.key_data,
        s.sizes.length-value_encode (length i.key_size),
      )
      (omega (
        arith,
        v.sizes,
        v.counts,
        s.sizes.value_space-le (length i.key_size) v.few,
        s.sizes.length-encode-le i.size v.size_fits,
        s.numbers.length-encode-le i.num_entries v.count_fits,
        s.numbers.length-encode-le i.key_size v.key_fits,
      ))
