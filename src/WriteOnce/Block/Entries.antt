-- ===== src/WriteOnce/Block/Entries.antt =====
-- The entries that a block of src/table-backend-writeonce.cc holds, through `Marshal` and back.
use cantera_table.Shared.{
  drop_append, take_append, ℕ, suc, ◌+◌, ◌<◌, ◌^◌, List, [], ◌∷◌, ◌++◌, ◌≡◌, refl, ap, sym, Bool,
  true, false, leb, ◌==◌, length, take, All, append_assoc, append-nil, ◌∙◌, length-append, arith,
}
use cantera_table.Result.{ok}
use cantera_table.Shared.Words.{u32}
use cantera_table.WriteOnce.Codec.{Codec}
use cantera_table.WriteOnce.Block.{
  Block, empty_block, add, total, cut, marshal, marshal_entries, unmarshal, unmarshal_entries,
  unmarshal_arrays, views, keys, values,
}

abbrev pub Bytes : Type 0
Bytes = List ℕ

-- What Add is called with; `size_t` sizes that 32 bits hold.
abbrev pub Fits : Bytes × Bytes → Type 0
Fits e = length e.0 < 2 ^ 32 × length e.1 < 2 ^ 32

abbrev pub lengths : List Bytes → List ℕ
lengths [] = []
lengths (b ∷ bs) = length b ∷ lengths bs

abbrev pub joined : List Bytes → Bytes
joined [] = []
joined (b ∷ bs) = b ++ joined bs

abbrev pub firsts : List (Bytes × Bytes) → List Bytes
firsts [] = []
firsts (e ∷ es) = e.0 ∷ firsts es

abbrev pub seconds : List (Bytes × Bytes) → List Bytes
seconds [] = []
seconds (e ∷ es) = e.1 ∷ seconds es

-- The block that holds the entries `es`.
abbrev pub block_of : List (Bytes × Bytes) → Block
block_of es = record {
  key_size = lengths (firsts es);
  key_data = joined (firsts es);
  value_size = lengths (seconds es);
  value_data = joined (seconds es);
}

-- Add for each entry.
unfoldable pub add_all : Block → List (Bytes × Bytes) → Block
add_all b [] = b
add_all b (e ∷ es) = add_all (add b e.0 e.1) es

pub lengths-append : (a b : List Bytes) → lengths (a ++ b) ≡ lengths a ++ lengths b
lengths-append [] b = refl
lengths-append (x ∷ a) b = rw (lengths-append a b)

pub joined-append : (a b : List Bytes) → joined (a ++ b) ≡ joined a ++ joined b
joined-append [] b = refl
joined-append (x ∷ a) b = rw (joined-append a b, append_assoc x (joined a) (joined b))

firsts-append : (a b : List (Bytes × Bytes)) → firsts (a ++ b) ≡ firsts a ++ firsts b
firsts-append [] b = refl
firsts-append (x ∷ a) b = rw (firsts-append a b)

seconds-append : (a b : List (Bytes × Bytes)) → seconds (a ++ b) ≡ seconds a ++ seconds b
seconds-append [] b = refl
seconds-append (x ∷ a) b = rw (seconds-append a b)

pub add_step :
    (es : List (Bytes × Bytes)) (e : Bytes × Bytes)
    → Fits e
    → add (block_of es) e.0 e.1 ≡ block_of (es ++ (e ∷ []))
unfolding add
add_step es e h =
    let k : u32 (length e.0) ≡ length e.0 = omega (arith, h.0) in
    let v : u32 (length e.1) ≡ length e.1 = omega (arith, h.1) in
    rw (
      k,
      v,
      firsts-append es (e ∷ []),
      seconds-append es (e ∷ []),
      lengths-append (firsts es) (e.0 ∷ []),
      lengths-append (seconds es) (e.1 ∷ []),
      joined-append (firsts es) (e.0 ∷ []),
      joined-append (seconds es) (e.1 ∷ []),
      append-nil e.0,
      append-nil e.1,
    )

add_all-block_of :
    (es more : List (Bytes × Bytes))
    → All Fits more
    → add_all (block_of es) more ≡ block_of (es ++ more)
unfolding add_all
add_all-block_of es [] h = rw (append-nil es)
add_all-block_of es (e ∷ more) h =
    rw
      (add_step es e h.0, add_all-block_of (es ++ (e ∷ [])) more h.1, append_assoc es (e ∷ []) more)

pub views-joined : (bs : List Bytes) → views (lengths bs) (joined bs) ≡ bs
unfolding views
views-joined [] = refl
views-joined (b ∷ bs) = rw (take_append b (joined bs), drop_append b (joined bs), views-joined bs)

pub cut-append : (a b : Bytes) → cut (length a) (a ++ b) ≡ ok (a, b)
unfolding cut
cut-append a b =
    let fits : leb (length a) (length (a ++ b)) ≡ true = ground (arith, length-append a b) in
    rw (fits, take_append a b, drop_append a b)

pub total-lengths : (bs : List Bytes) → total (lengths bs) ≡ length (joined bs)
total-lengths [] = refl
total-lengths (b ∷ bs) = omega (arith, total-lengths bs, length-append b (joined bs))

pub lengths-Fits :
    (es : List (Bytes × Bytes))
    → All Fits es
    → All (λ n. n < 2 ^ 32) (lengths (firsts es)) × All (λ n. n < 2 ^ 32) (lengths (seconds es))
lengths-Fits [] h = (tt, tt)
lengths-Fits (e ∷ es) h = let rest = lengths-Fits es h.1 in ((h.0.0, rest.0), (h.0.1, rest.1))

pub length-firsts : (es : List (Bytes × Bytes)) → length (lengths (firsts es)) ≡ length es
length-firsts [] = refl
length-firsts (e ∷ es) = ap suc (length-firsts es)

pub length-seconds : (es : List (Bytes × Bytes)) → length (lengths (seconds es)) ≡ length es
length-seconds [] = refl
length-seconds (e ∷ es) = ap suc (length-seconds es)

pub some_left : (n : ℕ) → (suc n == 0) ≡ false
some_left n = ground arith

module _ (c : Codec (2 ^ 32)) where
  -- One entry, in front of bytes that hold the entries `es`.
  entry_back :
      (n : ℕ) (k v tail : Bytes) (es : List (Bytes × Bytes))
      → Fits (k, v)
      → unmarshal_entries c n tail ≡ ok (block_of es)
      → unmarshal_entries c
          (suc n)
          ((c.value_encode (length k) ++ (c.value_encode (length v) ++ (k ++ v))) ++ tail)
        ≡ ok (block_of ((k, v) ∷ es))
  unfolding unmarshal_entries
  entry_back n k v tail es fits later = rw (
    append_assoc (c.value_encode (length k)) (c.value_encode (length v) ++ (k ++ v)) tail,
    append_assoc (c.value_encode (length v)) (k ++ v) tail,
    c.value_decode-value_encode (length k) (c.value_encode (length v) ++ ((k ++ v) ++ tail)) fits.0,
    c.value_decode-value_encode (length v) ((k ++ v) ++ tail) fits.1,
    append_assoc k v tail,
    cut-append k (v ++ tail),
    cut-append v tail,
    later,
  )

  entries_back :
      (es : List (Bytes × Bytes))
      → All Fits es
      → unmarshal_entries c (length es) (
          marshal_entries c
            (lengths (firsts es))
            (lengths (seconds es))
            (joined (firsts es))
            (joined (seconds es)))
        ≡ ok (block_of es)
  unfolding marshal_entries unmarshal_entries
  entries_back [] h = refl
  entries_back (e ∷ es) h =
      rw
        (
          take_append e.0 (joined (firsts es)),
          take_append e.1 (joined (seconds es)),
          drop_append e.0 (joined (firsts es)),
          drop_append e.1 (joined (seconds es)),
        )
        (entry_back (length es) e.0 e.1 _ es h.0 (entries_back es h.1))

  -- The sizes as arrays, and then the joined data.
  arrays_back_of :
      (ks vs : List ℕ) (kd vd : Bytes)
      → All (λ n. n < 2 ^ 32) ks
      → All (λ n. n < 2 ^ 32) vs
      → total ks ≡ length kd
      → total vs ≡ length vd
      → length vs ≡ length ks
      → unmarshal_arrays c (length ks) (c.encode ks ++ (c.encode vs ++ (kd ++ vd)))
        ≡ ok (record { key_size = ks; key_data = kd; value_size = vs; value_data = vd })
  unfolding unmarshal_arrays
  arrays_back_of ks vs kd vd hk hv tk tv same =
      let fits : leb (total ks + total vs) (length (kd ++ vd)) ≡ true =
        ground (arith, length-append kd vd) in
      let whole : take (length vd) vd ≡ vd = rw (append-nil vd) at (take_append vd []) in
      rw (
        c.decode-encode ks (c.encode vs ++ (kd ++ vd)) hk,
        sym same,
        c.decode-encode vs (kd ++ vd) hv,
        fits,
        tk,
        tv,
        take_append kd vd,
        drop_append kd vd,
        whole,
      )

  arrays_back :
      (es : List (Bytes × Bytes))
      → All Fits es
      → unmarshal_arrays c (length es) (
          c.encode (lengths (firsts es))
          ++ (c.encode (lengths (seconds es)) ++ (joined (firsts es) ++ joined (seconds es))))
        ≡ ok (block_of es)
  arrays_back es h = rw (sym (length-firsts es)) (
      arrays_back_of (lengths (firsts es)) (lengths (seconds es)) _ _ (lengths-Fits es h).0
        (lengths-Fits es h).1 (total-lengths (firsts es)) (total-lengths (seconds es))
        (length-seconds es ∙ sym (length-firsts es)))

  pub block_back :
      (es : List (Bytes × Bytes)) (seekable : Bool)
      → All Fits es
      → unmarshal c (marshal c (block_of es) seekable) (length es) seekable ≡ ok (block_of es)
  unfolding marshal unmarshal
  block_back [] seekable h = refl
  block_back (e ∷ es) true h =
      rw (some_left (length es), some_left (length (lengths (firsts es)))) (entries_back (e ∷ es) h)
  block_back (e ∷ es) false h =
      rw (some_left (length es), some_left (length (lengths (firsts es)))) (arrays_back (e ∷ es) h)

  -- A block that entries were added to, each key and value shorter than 2 ^ 32 bytes, is read back by
  -- Unmarshal from what Marshal wrote, in both formats, and its keys and values are those that were added.
  pub unmarshal-marshal :
      (es : List (Bytes × Bytes)) (seekable : Bool)
      → All Fits es
      → (b : Block) × (unmarshal c
            (marshal c (add_all empty_block es) seekable)
            (length es)
            seekable
          ≡ ok b)
        × (keys b ≡ firsts es)
        × (values b ≡ seconds es)
  unfolding keys values
  unmarshal-marshal es seekable h = (
    block_of es,
    rw (add_all-block_of [] es h) (block_back es seekable h),
    views-joined (firsts es),
    views-joined (seconds es),
  )
