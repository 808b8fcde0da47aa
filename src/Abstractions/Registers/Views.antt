-- ===== src/Abstractions/Registers/Views.antt =====
-- src/abstractions/registers.rs: registers, and registers that are part of another one.
use native.Mathlib.Nat.{pow-le-pow_right, one-le-pow}
use vivisect_rs.Base.{
  ℕ, zero, suc, ◌+◌, ◌%◌, ◌^◌, ◌≤◌, ◌<◌, ◌≡◌, ◌≢◌, refl, ap, ◌∙◌, ◌&&◌, some, List, [], ◌∷◌, arith,
  ltb, leb, ◌==◌, if◌then◌else◌, bit_and, length, get_elem?, unwrap_or, Option-cases, Bool-cases,
  ◌⊎◌, inl, inr,
}
use vivisect_rs.Word.{IsU64}
use vivisect_rs.Word.Laws.{shift_amount_small}
use vivisect_rs.Word.Digits.{and-mask}
use vivisect_rs.Word.Fields.{
  ones, insert_bits, extract_bits, extract_bits-insert_bits, extract_bits-insert_bits_apart,
}
use vivisect_rs.Abstractions.Registers.{
  bit_mask, RegisterInfo, BasicRegisterContext, value_at, update_at, read_info, write_values,
}

bit_mask_lem : (size : ℕ) → size ≤ 64 → bit_mask size ≡ ones size
unfolding bit_mask
bit_mask_lem size h = elim (Bool-cases (leb 64 size)) [
  | inl e ↦ let full : size ≡ 64 = ground arith in rw full refl
  | inr e ↦
      let small : size < 64 = ground arith in
      let bound = pow-le-pow_right {n = 2} (omega arith) {i = size} {j = 63} (omega arith) in
      rw (e, shift_amount_small size small) (omega (arith, bound, one-le-pow size 2))
]

pub value_at-update_at :
    (i j : ℕ) (f : ℕ → ℕ) (vs : List ℕ)
    → value_at (update_at i f vs) j
      ≡ (if i == j && ltb i (length vs) then f (value_at vs i) else value_at vs j)
unfolding update_at
value_at-update_at zero zero f [] = ground arith
value_at-update_at zero (suc j) f [] = ground arith
value_at-update_at (suc i) j f [] = ground arith
value_at-update_at zero zero f (v ∷ vs) = ground arith
value_at-update_at zero (suc j) f (v ∷ vs) = ground arith
value_at-update_at (suc i) zero f (v ∷ vs) = ground arith
value_at-update_at (suc i) (suc j) f (v ∷ vs) = value_at-update_at i j f vs ∙ ground arith

pub length-update_at : (i : ℕ) (f : ℕ → ℕ) (vs : List ℕ) → length (update_at i f vs) ≡ length vs
unfolding update_at
length-update_at i f [] = refl
length-update_at zero f (v ∷ vs) = refl
length-update_at (suc i) f (v ∷ vs) = ap suc (length-update_at i f vs)

-- A context in which every register has a value that is a `u64`, at most 64 bits, and a place within
-- another register if it is a part of one.
pub record IsValid (c : BasicRegisterContext) : Type 0 where
  pub counted : length c.values ≡ length c.info
  pub values_fit : (i : ℕ) → IsU64 (value_at c.values i)
  pub positive : (i : ℕ) (r : RegisterInfo) → get_elem? c.info i ≡ some r → 0 < r.size
  pub fits :
      (i : ℕ) (r : RegisterInfo) → get_elem? c.info i ≡ some r → r.parent_offset + r.size ≤ 64
  pub nested :
      (i : ℕ) (r : RegisterInfo) (p : ℕ)
      → get_elem? c.info i ≡ some r
      → r.parent ≡ some p
      → p < length c.info

get_elem?-bound :
    {A : Type 0} (xs : List A) (i : ℕ) (a : A) → get_elem? xs i ≡ some a → i < length xs
get_elem?-bound [] i a h = absurd (ground arith)
get_elem?-bound (x ∷ xs) zero a h = omega arith
get_elem?-bound (x ∷ xs) (suc i) a h = omega (arith, get_elem?-bound xs i a h)

-- The register that holds the value: the parent, or the register itself.
abbrev pub root : RegisterInfo → ℕ → ℕ
root r index = unwrap_or r.parent index

pub read_info-write_values :
    (c : BasicRegisterContext) (r : RegisterInfo) (index value : ℕ)
    → IsValid c
    → get_elem? c.info index ≡ some r
    → read_info (write_values c.values r index value) r index ≡ value % 2 ^ r.size
unfolding read_info write_values
read_info-write_values c r index value v known =
    let positive = v.positive index r known in
    let fits = v.fits index r known in
    let mask = bit_mask_lem r.size (omega arith) in
    elim (Option-cases r.parent) [
      | inl e ↦
          let low = and-mask r.size value in
          let inside = get_elem?-bound c.info index r known in
          let read =
            value_at-update_at index index (λ old. bit_and value (bit_mask r.size)) c.values in
          let masked : bit_and value (bit_mask r.size) ≡ value % 2 ^ r.size =
            ap (bit_and value) mask ∙ low in
          ground (arith, e, read, masked, v.counted)
      | inr (p, e) ↦
          let inside = v.nested index r p known e in
          let put : ℕ → ℕ = λ old. insert_bits old r.parent_offset (bit_mask r.size) value in
          let read = value_at-update_at p p put c.values in
          let old = value_at c.values p in
          let taken : extract_bits (put old) r.parent_offset (bit_mask r.size)
              ≡ value % 2 ^ r.size =
            rw mask (
              extract_bits-insert_bits old r.parent_offset r.size value (v.values_fit p) positive
                fits) in
          let stored : value_at (update_at p put c.values) p ≡ put old =
            ground (arith, read, v.counted) in
          rw (e, stored) taken
    ]

-- A register whose value another register holds is not changed.
pub read_info-write_values_other :
    (values : List ℕ) (r q : RegisterInfo) (i j value : ℕ)
    → root r i ≢ root q j
    → read_info (write_values values r i value) q j ≡ read_info values q j
unfolding read_info write_values
read_info-write_values_other values r q i j value apart = elim (Option-cases r.parent) [
  | inl e ↦ elim (Option-cases q.parent) [
    | inl f ↦
        ground (
          arith,
          e,
          f,
          apart,
          value_at-update_at i j (λ old. bit_and value (bit_mask r.size)) values,
        )
    | inr (p, f) ↦
        let read = value_at-update_at i p (λ old. bit_and value (bit_mask r.size)) values in
        let same : value_at (update_at i (λ old. bit_and value (bit_mask r.size)) values) p
            ≡ value_at values p =
          ground (arith, e, f, apart, read) in
        rw (e, f, same) refl
  ]
  | inr (o, e) ↦ elim (Option-cases q.parent) [
    | inl f ↦ ground (
      arith,
      e,
      f,
      apart,
      value_at-update_at o j (λ old. insert_bits old r.parent_offset (bit_mask r.size) value)
          values,
    )
    | inr (p, f) ↦
        let read =
          value_at-update_at o p (λ old. insert_bits old r.parent_offset (bit_mask r.size) value)
            values in
        let same : value_at
              (update_at o (λ old. insert_bits old r.parent_offset (bit_mask r.size) value) values)
              p
            ≡ value_at values p =
          ground (arith, e, f, apart, read) in
        rw (e, f, same) refl
  ]
]

-- The values of two parts of one register.
pub part_apart :
    (c : BasicRegisterContext) (r q : RegisterInfo) (i j p value : ℕ)
    → IsValid c
    → get_elem? c.info i ≡ some r
    → get_elem? c.info j ≡ some q
    → r.parent ≡ some p
    → q.parent ≡ some p
    → (r.parent_offset + r.size ≤ q.parent_offset) ⊎ (q.parent_offset + q.size ≤ r.parent_offset)
    → read_info (write_values c.values r i value) q j ≡ read_info c.values q j
unfolding read_info write_values
part_apart c r q i j p value v known known' e f apart =
    let put : ℕ → ℕ = λ old. insert_bits old r.parent_offset (bit_mask r.size) value in
    let old = value_at c.values p in
    let mask = bit_mask_lem r.size (omega (arith, v.fits i r known)) in
    let mask' = bit_mask_lem q.size (omega (arith, v.fits j q known')) in
    let kept : extract_bits (put old) q.parent_offset (bit_mask q.size)
        ≡ extract_bits old q.parent_offset (bit_mask q.size) =
      rw (mask, mask')
        (extract_bits-insert_bits_apart old r.parent_offset r.size q.parent_offset q.size value
          (v.values_fit p) (v.positive i r known) (v.fits i r known)
          (omega (arith, v.positive j q known', v.fits j q known')) apart) in
    let stored : value_at (update_at p put c.values) p ≡ put old =
      ground (arith, value_at-update_at p p put c.values, v.counted, v.nested i r p known e) in
    rw (e, f, stored) kept
