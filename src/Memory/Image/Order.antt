-- ===== src/Memory/Image/Order.antt =====
-- src/envi/memory.rs and src/abstractions/memory.rs, integers in memory: byte order, and the typed
-- accesses.
use vivisect_rs.Base.{
  ℕ, zero, suc, ◌+◌, ◌*◌, ◌/◌, ◌^◌, ◌<◌, ◌≡◌, refl, sym, ap, ◌∙◌, List, [], ◌∷◌, ◌++◌, arith,
  length,
}
use native.Mathlib.Numerals.{unary_clauses}
use vivisect_rs.Error.{ok}
use vivisect_rs.Memory.Object.{MemoryObject, read_memory}
use vivisect_rs.Memory.Object.Lookup.{IsValid}
use vivisect_rs.Memory.Object.Errors.{read_memory-write_memory}
use vivisect_rs.Memory.Image.{
  from_le_bytes, be_bytes_after, from_be_bytes, to_le_bytes, read_le, write_le,
}

pub length-to_le_bytes : (count value : ℕ) → length (to_le_bytes count value) ≡ count
unfolding to_le_bytes
length-to_le_bytes zero value = refl
length-to_le_bytes (suc count) value = ap suc (length-to_le_bytes count (value / 256))

-- An integer that fits in so many bytes is what its bytes stand for.
pub from_le_bytes-to_le_bytes :
    (count value : ℕ) → value < 256 ^ count → from_le_bytes (to_le_bytes count value) ≡ value
unfolding from_le_bytes to_le_bytes
from_le_bytes-to_le_bytes zero value p = omega arith
from_le_bytes-to_le_bytes (suc count) value p =
    let e : 256 ^ suc count ≡ 256 * 256 ^ count = simp unary_clauses (omega arith) in
    omega (arith, e, from_le_bytes-to_le_bytes count (value / 256) (omega arith))

-- What a typed little-endian write stores in a valid memory, the read of the same width at the same
-- address gives back, if the value fits in the width.
pub read_le-write_le :
    (m : MemoryObject) {m' : MemoryObject} (addr count value : ℕ)
    → IsValid m
    → value < 256 ^ count
    → write_le m addr count value ≡ ok m'
    → read_le m' addr count ≡ ok value
unfolding read_le write_le
read_le-write_le m {m'} addr count value v p h =
    let l = length-to_le_bytes count value in
    let back = read_memory-write_memory m {m' = m'} addr (to_le_bytes count value) v h in
    let reads : read_memory m' addr count ≡ ok (to_le_bytes count value) =
      ap (read_memory m' addr) (sym l) ∙ back in
    rw reads (ap ok (from_le_bytes-to_le_bytes count value p))

-- The bytes of a list in the opposite order.
abbrev pub reversed : List ℕ → List ℕ
reversed [] = []
reversed (b ∷ bs) = reversed bs ++ (b ∷ [])

be_bytes_after-append :
    (n b : ℕ) (bs : List ℕ) → be_bytes_after n (bs ++ (b ∷ [])) ≡ 256 * be_bytes_after n bs + b
unfolding be_bytes_after
be_bytes_after-append n b [] = refl
be_bytes_after-append n b (c ∷ bs) = be_bytes_after-append (256 * n + c) b bs

-- The big-endian reading of bytes is the little-endian reading of them in the opposite order.
pub from_be_bytes-reversed : (bs : List ℕ) → from_be_bytes (reversed bs) ≡ from_le_bytes bs
unfolding be_bytes_after from_le_bytes
from_be_bytes-reversed [] = refl
from_be_bytes-reversed (b ∷ bs) =
    be_bytes_after-append 0 b (reversed bs) ∙ omega (arith, from_be_bytes-reversed bs)
