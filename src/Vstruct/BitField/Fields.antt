-- ===== src/Vstruct/BitField/Fields.antt =====
-- src/vstruct/bitfield.rs: what setting a field does to the fields.
use native.Mathlib.Nat.{pow-le-pow_right, one-le-pow}
use vivisect_rs.Base.{ℕ, ◌+◌, ◌-◌, ◌%◌, ◌^◌, ◌≤◌, ◌<◌, ◌≡◌, arith, ◌⊎◌}
use vivisect_rs.Word.{IsU64}
use vivisect_rs.Word.Laws.{shift_amount_small}
use vivisect_rs.Word.Fields.{
  extract_bits, extract_bits-insert_bits, extract_bits-insert_bits_apart, insert_bits-IsU64,
}
use vivisect_rs.Vstruct.BitField.{field_mask, put_bits}

-- A width below 64 has the mask of as many ones.
pub field_mask_small : (w : ℕ) → w < 64 → field_mask w ≡ 2 ^ w - 1
field_mask_small w h =
    let bound = pow-le-pow_right {n = 2} (omega arith) {i = w} {j = 63} (omega arith) in
    rw (shift_amount_small w h) (omega (arith, bound, one-le-pow w 2))

-- The part of a value that `get_field` returns.
abbrev pub field_bits : ℕ → ℕ → ℕ → ℕ
field_bits value offset width = extract_bits value offset (field_mask width)

-- Reading the field that was set, and one that shares no bit with it.
pub field_bits-put_bits :
    (old offset width new : ℕ)
    → IsU64 old
    → 0 < width
    → width < 64
    → offset + width ≤ 64
    → field_bits (put_bits old offset width new) offset width ≡ new % 2 ^ width
unfolding put_bits
field_bits-put_bits old offset width new u positive w fits =
    rw (field_mask_small width w) (extract_bits-insert_bits old offset width new u positive fits)

pub field_bits-put_bits_apart :
    (old o1 w1 o2 w2 new : ℕ)
    → IsU64 old
    → 0 < w1
    → w1 < 64
    → o1 + w1 ≤ 64
    → o2 < 64
    → w2 < 64
    → (o1 + w1 ≤ o2) ⊎ (o2 + w2 ≤ o1)
    → field_bits (put_bits old o1 w1 new) o2 w2 ≡ field_bits old o2 w2
unfolding put_bits
field_bits-put_bits_apart old o1 w1 o2 w2 new u positive w fits k w' apart =
    rw (field_mask_small w1 w, field_mask_small w2 w')
      (extract_bits-insert_bits_apart old o1 w1 o2 w2 new u positive fits k apart)

pub put_bits-IsU64 : (old offset width new : ℕ) → IsU64 old → IsU64 (put_bits old offset width new)
unfolding put_bits
put_bits-IsU64 old offset width new u = insert_bits-IsU64 old offset (field_mask width) new u
