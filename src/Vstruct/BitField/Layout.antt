-- ===== src/Vstruct/BitField/Layout.antt =====
-- src/vstruct/bitfield.rs: the fields of a well-formed bit field.
use vivisect_rs.Base.{
  ℕ, ◌+◌, ◌*◌, ◌%◌, ◌^◌, ◌≤◌, ◌<◌, ◌≡◌, sym, ap, ◌∙◌, some, String, arith, ltb, ◌==◌, if◌then◌else◌,
  Option-cases, Bool-cases, ◌⊎◌, inl, inr,
}
use mathlib.Core.Path.{subst}
use vivisect_rs.Word.{u64_mod, IsU64}
use vivisect_rs.Word.Bits.{bit_and-zero}
use vivisect_rs.Word.Digits.{and-mask}
use vivisect_rs.Error.{ok}
use vivisect_rs.HashMap.{find_name, put_name}
use vivisect_rs.HashMap.Laws.{find_name-put_name}
use vivisect_rs.Vstruct.BitField.{BitField, define_field, get_field, put_bits, set_field, set_raw}
use vivisect_rs.Vstruct.BitField.Fields.{
  field_mask_small, field_bits, field_bits-put_bits, field_bits-put_bits_apart, put_bits-IsU64,
}

-- A bit field of at most 8 bytes whose value is a `u64` and whose fields lie in it.
pub record IsValid (b : BitField) : Type 0 where
  pub size_fits : b.size ≤ 8
  pub value_fits : IsU64 b.value
  pub fields_fit :
      (name : String) (offset width : ℕ)
      → find_name name b.fields ≡ some (offset, width)
      → offset + width ≤ b.size * 8

-- What `define_field` accepts keeps a bit field valid, if the end of the new field does not wrap.
pub define_field-IsValid :
    (b : BitField) {b' : BitField} (name : String) (offset width : ℕ)
    → IsValid b
    → offset + width < u64_mod
    → define_field b name offset width ≡ ok b'
    → IsValid b'
unfolding define_field
define_field-IsValid b {b'} name offset width v small h =
    elim (Bool-cases (ltb (b.size * 8) (offset + width))) [
      | inl beyond ↦ absurd (ground (arith, v.size_fits))
      | inr within ↦
          let same : record b { fields = put_name name (offset, width) b.fields } ≡ b' =
            ground (arith, v.size_fits) in
          subst IsValid same (record {
            size_fits = v.size_fits;
            value_fits = v.value_fits;
            fields_fit = λ q o w found. within_fields q o w found (ground (arith, v.size_fits));
          })
    ]
  where
    within_fields :
        (q : String) (o w : ℕ)
        → find_name q (put_name name (offset, width) b.fields) ≡ some (o, w)
        → offset + width ≤ b.size * 8
        → o + w ≤ b.size * 8
    within_fields q o w found le =
        ground (arith, find_name-put_name name q (offset, width) b.fields, v.fields_fit q o w)

pub set_field-IsValid :
    (b : BitField) {b' : BitField} (name : String) (new : ℕ)
    → IsValid b
    → set_field b name new ≡ ok b'
    → IsValid b'
unfolding set_field
set_field-IsValid b {b'} name new v h = elim (Option-cases (find_name name b.fields)) [
  | inl absent ↦ absurd (ground arith)
  | inr ((offset, width), found) ↦
      let same : record b { value = put_bits b.value offset width new } ≡ b' = ground arith in
      subst IsValid same (record {
        size_fits = v.size_fits;
        value_fits = put_bits-IsU64 b.value offset width new v.value_fits;
        fields_fit = v.fields_fit;
      })
]

-- The new state of `set_field` on a field that exists.
abbrev with_bits : BitField → ℕ → ℕ → ℕ → BitField
with_bits b offset width new = record b { value = put_bits b.value offset width new }

set_field-found :
    (b : BitField) (name : String) (new offset width : ℕ)
    → find_name name b.fields ≡ some (offset, width)
    → set_field b name new ≡ ok (with_bits b offset width new)
unfolding set_field
set_field-found b name new offset width found = ground (arith, found)

get_field-found :
    (b : BitField) (name : String) (offset width : ℕ)
    → find_name name b.fields ≡ some (offset, width)
    → get_field b name ≡ some (field_bits b.value offset width)
unfolding get_field
get_field-found b name offset width found = ground (arith, found)

-- In a valid bit field, a field of at least one bit and fewer than 64 bits can be set, and then
-- holds the new value modulo 2 to the width.
pub get_field-set_field :
    (b : BitField) (name : String) (new offset width : ℕ)
    → IsValid b
    → find_name name b.fields ≡ some (offset, width)
    → 0 < width
    → width < 64
    → (b' : BitField) × (set_field b name new ≡ ok b')
      × (get_field b' name ≡ some (new % 2 ^ width))
get_field-set_field b name new offset width v found positive w =
    let fits = v.fields_fit name offset width found in
    let b' = with_bits b offset width new in
    let bits =
      field_bits-put_bits b.value offset width new v.value_fits positive w
        (omega (arith, v.size_fits)) in
    (
      b',
      set_field-found b name new offset width found,
      get_field-found b' name offset width found ∙ ap some bits,
    )

-- Setting a field leaves a field that shares no bit with it as it was.
pub get_field-set_field_apart :
    (b : BitField) (name other : String) (new o1 w1 o2 w2 : ℕ)
    → IsValid b
    → find_name name b.fields ≡ some (o1, w1)
    → find_name other b.fields ≡ some (o2, w2)
    → 0 < w1
    → w1 < 64
    → 0 < w2
    → w2 < 64
    → (o1 + w1 ≤ o2) ⊎ (o2 + w2 ≤ o1)
    → (b' : BitField) × (set_field b name new ≡ ok b') × (get_field b' other ≡ get_field b other)
get_field-set_field_apart b name other new o1 w1 o2 w2 v found found' p w p' w' apart =
    let fits = v.fields_fit name o1 w1 found in
    let fits' = v.fields_fit other o2 w2 found' in
    let b' = with_bits b o1 w1 new in
    let bits =
      field_bits-put_bits_apart b.value o1 w1 o2 w2 new v.value_fits p w
        (omega (arith, v.size_fits)) (omega (arith, v.size_fits)) w' apart in
    (
      b',
      set_field-found b name new o1 w1 found,
      get_field-found b' other o2 w2 found'
          ∙ ap some bits
          ∙ sym (get_field-found b other o2 w2 found'),
    )

-- `set_raw` keeps the value below 2 to the number of bits, except at 8 bytes, where the mask is empty
-- and the value becomes 0.
pub set_raw_value :
    (b : BitField) (new : ℕ)
    → b.size ≤ 8
    → (set_raw b new).value ≡ (if b.size == 8 then 0 else new % 2 ^ (b.size * 8))
unfolding set_raw
set_raw_value b new h = elim (Bool-cases (b.size == 8)) [
  | inl e ↦ let full : b.size ≡ 8 = ground arith in rw full (bit_and-zero new)
  | inr e ↦
      let small : b.size * 8 < 64 = ground arith in
      rw (e, field_mask_small (b.size * 8) small) (and-mask (b.size * 8) new)
]
