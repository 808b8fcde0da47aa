-- ===== src/Vstruct/BitField/RoundTrip.antt =====
-- src/vstruct/bitfield.rs: what `emit` writes and `parse` reads.
use vivisect_rs.Base.{
  ℕ, ◌+◌, ◌^◌, ◌<◌, ◌≡◌, refl, sym, ap, ◌∙◌, true, List, [], ◌∷◌, ◌++◌, arith, length, take, drop,
  length-append, take-append, drop-append,
}
use vivisect_rs.Error.{ok}
use vivisect_rs.Memory.Image.{Endian, to_le_bytes}
use vivisect_rs.Memory.Image.Order.{
  reversed, length-to_le_bytes, from_le_bytes-to_le_bytes, from_be_bytes-reversed,
}
use vivisect_rs.Vstruct.BitField.{
  BitField, is_supported, read_order, write_order, parse_bits, emit_bits,
}

length-reversed : (bs : List ℕ) → length (reversed bs) ≡ length bs
length-reversed [] = refl
length-reversed (b ∷ bs) = omega (arith, length-append (reversed bs) (b ∷ []), length-reversed bs)

pub length-write_order : (e : Endian) (size n : ℕ) → length (write_order e size n) ≡ size
length-write_order Endian.little size n = length-to_le_bytes size n
length-write_order Endian.big size n =
    length-reversed (to_le_bytes size n) ∙ length-to_le_bytes size n

pub read_order-write_order :
    (e : Endian) (size n : ℕ) → n < 256 ^ size → read_order e (write_order e size n) ≡ n
read_order-write_order Endian.little size n h = from_le_bytes-to_le_bytes size n h
read_order-write_order Endian.big size n h =
    from_be_bytes-reversed (to_le_bytes size n) ∙ from_le_bytes-to_le_bytes size n h

-- A bit field of a supported size whose value fits in it is what `parse` makes of the bytes of `emit`,
-- wherever they stand and whatever the value before.
pub parse_bits-emit_bits :
    (b : BitField) (before after : List ℕ) (old : ℕ)
    → is_supported b.size ≡ true
    → b.value < 256 ^ b.size
    → parse_bits (record b { value = old }) (before ++ (emit_bits b ++ after)) (length before)
      ≡ ok (b, length before + b.size)
unfolding parse_bits emit_bits
parse_bits-emit_bits b before after old s small =
    let bytes = write_order b.endian b.size b.value in
    let l = length-write_order b.endian b.size b.value in
    let cut : take b.size (drop (length before) (before ++ (bytes ++ after))) ≡ bytes =
      ap (take b.size) (drop-append before (bytes ++ after))
      ∙ ap (λ t. take t (bytes ++ after)) (sym l)
      ∙ take-append bytes after in
    let total : length (before ++ (bytes ++ after)) ≡ length before + (b.size + length after) =
      omega (arith, length-append before (bytes ++ after), length-append bytes after, l) in
    let value =
      ap (read_order b.endian) cut ∙ read_order-write_order b.endian b.size b.value small in
    ground (arith, total, value)
