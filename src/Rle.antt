-- ===== src/Rle.antt =====
-- src/rle.c, and the reader in src/parse.cc: runs of equal bytes. A byte below 0xc0 stands for
-- itself; 0xc0 + n is followed by a byte that stands for n + 1 copies of itself.
mod Pending
pub mod RoundTrip
pub mod Progress
pub mod Size
use Prim.Native.Nat.{bit_and, bit_or}
use cantera_table.Shared.{
  ℕ, zero, suc, ◌+◌, ◌-◌, List, [], ◌∷◌, ◌++◌, Bool, ◌&&◌, not, ltb, leb, ◌==◌, if◌then◌else◌,
  replicate,
}
use cantera_table.Shared.Words.{u8}
use cantera_table.Result.{Result, ok, err, overrun, require, ◌>>=◌}

-- CA_rle_context of a writer: `out` is what stands before `data`.
pub record Writer : Type 0 where
  pub out : List ℕ
  pub value : ℕ
  pub run : ℕ

pub init_write : List ℕ → Writer
init_write output = record { out = output; value = 0; run = 0 }

pub flush : Writer → Writer
flush c =
    if c.run == 0
    then c
    else if leb c.run 2 && ltb c.value 0xc0
    then record c { out = c.out ++ replicate c.run c.value; run = 0 }
    else record c { out = c.out ++ (bit_or 0xc0 (c.run - 1) ∷ c.value ∷ []); run = 0 }

-- CA_rle_put behind its flush: `++ctx->run`, and a full run is written at once.
pub extend : Writer → ℕ → Writer
extend c value =
    let run = u8 (c.run + 1) in
    if run == 0x40
    then record { out = c.out ++ (0xff ∷ value ∷ []); value = value; run = 0 }
    else record { out = c.out; value = value; run = run }

pub put : Writer → ℕ → Writer
unfolding flush extend
put c value = extend (if not (value == c.value) && not (c.run == 0) then flush c else c) value

pub put_all : Writer → List ℕ → Writer
put_all c [] = c
put_all c (b ∷ bs) = put_all (put c b) bs

-- for (b : bytes) CA_rle_put(&rle, b); o = CA_rle_flush(&rle);
pub encode : List ℕ → List ℕ
encode bytes = (flush (put_all (init_write []) bytes)).out

-- CA_rle_context of a reader: `rest` are the bytes from `data` on, and `last` is `data[-1]`.
pub record Reader : Type 0 where
  pub run : ℕ
  pub last : ℕ
  pub rest : List ℕ

-- `data[-1]` is not read before a byte was taken; here it is 0.
pub init_read : List ℕ → Reader
init_read input = record { run = 0; last = 0; rest = input }

-- A run's header `head` was met: its count, and the byte behind it.
pub read_run : ℕ → List ℕ → Result (ℕ × Reader)
read_run head [] = err overrun
read_run head (b ∷ rest) = ok (b, record { run = bit_and head 0x3f; last = b; rest = rest })

pub read_fresh : List ℕ → Result (ℕ × Reader)
unfolding read_run
read_fresh [] = err overrun
read_fresh (b ∷ rest) =
    if bit_and 0xc0 b == 0xc0
    then read_run b rest
    else ok (b, record { run = 0; last = b; rest = rest })

pub read_byte : Reader → Result (ℕ × Reader)
unfolding read_fresh
read_byte c = if c.run == 0 then read_fresh c.rest else ok (c.last, record c { run = c.run - 1 })

unfoldable pub read_bytes : ℕ → Reader → Result (List ℕ × Reader)
read_bytes zero c = ok ([], c)
read_bytes (suc n) c = do p ← read_byte c; q ← read_bytes n p.1; ok (p.0 ∷ q.0, q.1)

-- for (b : mask) b = ReadRLEByte(&rle); KJ_REQUIRE(rle.run == 0); begin = rle.data;
unfoldable pub read_block : ℕ → List ℕ → Result (List ℕ × List ℕ)
read_block n input = do
  p ← read_bytes n (init_read input)
  if p.1.run == 0 then ok (p.0, p.1.rest) else err require
