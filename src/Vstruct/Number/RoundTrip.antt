-- ===== src/Vstruct/Number/RoundTrip.antt =====
-- src/vstruct/primitives.rs: what `emit` writes and `parse` reads, and the values of a number.
use vivisect_rs.Base.{
  ℕ, ◌+◌, ◌%◌, ◌^◌, ◌≤◌, ◌<◌, ◌≡◌, sym, ap, ◌∙◌, List, [], ◌++◌, arith, ◌==◌, length, take, drop,
  length-append, take-append, drop-append, Bool-cases, inl, inr,
}
use native.Mathlib.Nat.{mod-eq_of_lt}
use mathlib.Core.Path.{subst}
use vivisect_rs.Word.{u64_mod, IsU64}
use vivisect_rs.Error.{ok}
use vivisect_rs.Memory.Image.{Endian}
use vivisect_rs.Vstruct.Number.{
  ByteOrder, VNumber, read_be, read_le, has_function, read_loop, write_loop, read_number,
  parse_number, emit_number,
}
use vivisect_rs.Vstruct.Number.Loops.{
  low_byte, length-write_le, length-write_be, read_be-write_be, read_le-write_le,
}

read_loop-write_loop :
    (e : Endian) (size n : ℕ)
    → n < 256 ^ size
    → size ≤ 8
    → n < u64_mod
    → read_loop e (write_loop e size n) ≡ n
unfolding read_be read_le
read_loop-write_loop Endian.little size n small h fits =
    read_le-write_le size 0 n 0 small (omega arith) (omega arith) ∙ omega arith
read_loop-write_loop Endian.big size n small h fits =
    read_be-write_be size 0 n [] small (omega arith) ∙ omega arith

length-write_loop : (e : Endian) (size n : ℕ) → length (write_loop e size n) ≡ size
length-write_loop Endian.little size n = length-write_le size n
length-write_loop Endian.big size n = length-write_be size n [] ∙ omega arith

module _ (order : ByteOrder) where
  length-emit_number : (v : VNumber) → length (emit_number order v) ≡ v.size
  unfolding emit_number
  length-emit_number v = elim (Bool-cases (v.size == 1)) [
    | inl e ↦ ground arith
    | inr e ↦ elim (Bool-cases (has_function v.size)) [
      | inl f ↦ ground (arith, order.length-write v.endian v.size (v.value % 256 ^ v.size))
      | inr f ↦ ground (arith, length-write_loop v.endian v.size v.value)
    ]
  ]

  read_number-emit_number :
      (v : VNumber)
      → v.size ≤ 8
      → v.value < 256 ^ v.size
      → IsU64 v.value
      → read_number order v.endian v.size (emit_number order v) ≡ v.value
  unfolding emit_number read_number
  read_number-emit_number v h small fits = elim (Bool-cases (v.size == 1)) [
    | inl e ↦
        let one : v.size ≡ 1 = ground arith in
        let byte : v.value < 256 = subst (λ t. v.value < 256 ^ t) one small in
        ground (arith, low_byte v.value)
    | inr e ↦ elim (Bool-cases (has_function v.size)) [
      | inl f ↦
          let fits_size : v.value % 256 ^ v.size ≡ v.value = mod-eq_of_lt small in
          let back =
            ap (λ t. order.read v.endian v.size (order.write v.endian v.size t)) fits_size
            ∙ order.read-write v.endian v.size v.value small in
          ground (arith, back)
      | inr f ↦ ground (arith, read_loop-write_loop v.endian v.size v.value small h fits)
    ]
  ]

  -- A number of at most 8 bytes whose value fits in them is what `parse` makes of the bytes of `emit`,
  -- wherever they stand, in either byte order and at every size, 3, 5, 6 and 7 included; the offset
  -- that it returns is the end of those bytes.
  pub parse_number-emit_number :
      (v : VNumber) (before after : List ℕ) (old : ℕ)
      → v.size ≤ 8
      → v.value < 256 ^ v.size
      → IsU64 v.value
      → parse_number order
          (record v { value = old })
          (before ++ (emit_number order v ++ after))
          (length before)
        ≡ ok (v, length before + v.size)
  unfolding parse_number
  parse_number-emit_number v before after old h small fits =
      let bytes = emit_number order v in
      let l = length-emit_number v in
      let cut : take v.size (drop (length before) (before ++ (bytes ++ after))) ≡ bytes =
        ap (take v.size) (drop-append before (bytes ++ after))
        ∙ ap (λ t. take t (bytes ++ after)) (sym l)
        ∙ take-append bytes after in
      let total : length (before ++ (bytes ++ after)) ≡ length before + (v.size + length after) =
        omega (arith, length-append before (bytes ++ after), length-append bytes after, l) in
      let value =
        ap (read_number order v.endian v.size) cut ∙ read_number-emit_number v h small fits in
      ground (arith, total, value)
