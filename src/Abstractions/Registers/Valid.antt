-- ===== src/Abstractions/Registers/Valid.antt =====
-- src/abstractions/registers.rs: the operations and the invariant of the context.
use mathlib.Core.Path.{subst}
use vivisect_rs.Base.{
  ℕ, zero, suc, ◌+◌, ◌≤◌, ◌<◌, ◌≡◌, refl, ap, Option, none, some, [], ◌∷◌, ◌++◌, ◌⊎◌, unwrap_or,
  sym, ◌∙◌, ◌&&◌, String, List, arith, ltb, ◌==◌, bit_and, length, get_elem?, Option-cases,
  Bool-cases, inl, inr,
}
use vivisect_rs.Word.{IsU64}
use vivisect_rs.Word.Bits.{bit_and-lt}
use vivisect_rs.Word.Fields.{insert_bits, insert_bits-IsU64}
use vivisect_rs.Error.{ok}
use vivisect_rs.HashMap.{find_name}
use vivisect_rs.Abstractions.Registers.{
  push_register, add_register, add_sub_register, bit_mask, RegisterInfo, BasicRegisterContext,
  value_at, update_at, write_values, set_register_by_index, set_register,
}
use vivisect_rs.Abstractions.Registers.Views.{IsValid, value_at-update_at, length-update_at}

bit_mask-IsU64 : (size : ℕ) → IsU64 (bit_mask size)
unfolding bit_mask
bit_mask-IsU64 size = ground arith

update_at-IsU64 :
    (i j : ℕ) (f : ℕ → ℕ) (vs : List ℕ)
    → ((k : ℕ) → IsU64 (value_at vs k))
    → IsU64 (f (value_at vs i))
    → IsU64 (value_at (update_at i f vs) j)
update_at-IsU64 i j f vs fit new =
    let read = value_at-update_at i j f vs in
    elim (Bool-cases (i == j && ltb i (length vs))) [
      | inl e ↦
          let now : value_at (update_at i f vs) j ≡ f (value_at vs i) = read ∙ ground (arith, e) in
          subst IsU64 (sym now) new
      | inr e ↦
          let now : value_at (update_at i f vs) j ≡ value_at vs j = read ∙ ground (arith, e) in
          subst IsU64 (sym now) (fit j)
    ]

write_values-IsU64 :
    (vs : List ℕ) (r : RegisterInfo) (index value j : ℕ)
    → ((k : ℕ) → IsU64 (value_at vs k))
    → IsU64 value
    → IsU64 (value_at (write_values vs r index value) j)
unfolding write_values
write_values-IsU64 vs r index value j fit u = elim (Option-cases r.parent) [
  | inl e ↦ rw e (
      update_at-IsU64 index j (λ old. bit_and value (bit_mask r.size)) vs fit
        (bit_and-lt 64 value (bit_mask r.size) u (bit_mask-IsU64 r.size)))
  | inr (p, e) ↦ rw e (
      update_at-IsU64 p j (λ old. insert_bits old r.parent_offset (bit_mask r.size) value) vs fit
        (insert_bits-IsU64 (value_at vs p) r.parent_offset (bit_mask r.size) value (fit p)))
]

length-write_values :
    (vs : List ℕ) (r : RegisterInfo) (index value : ℕ)
    → length (write_values vs r index value) ≡ length vs
unfolding write_values
length-write_values vs r index value = elim (Option-cases r.parent) [
  | inl e ↦ rw e (length-update_at index _ vs)
  | inr (p, e) ↦ rw e (length-update_at p _ vs)
]

set_register_by_index-IsValid :
    (c : BasicRegisterContext) {c' : BasicRegisterContext} (index value : ℕ)
    → IsValid c
    → IsU64 value
    → set_register_by_index c index value ≡ ok c'
    → IsValid c'
unfolding set_register_by_index
set_register_by_index-IsValid c {c'} index value v u h =
    elim (Option-cases (get_elem? c.info index)) [
      | inl e ↦ absurd (ground arith)
      | inr (r, e) ↦
          let same : record c { values = write_values c.values r index value } ≡ c' =
            ground arith in
          subst IsValid same (record {
            counted = length-write_values c.values r index value ∙ v.counted;
            values_fit = λ j. write_values-IsU64 c.values r index value j v.values_fit u;
            positive = v.positive;
            fits = v.fits;
            nested = v.nested;
          })
    ]

-- Setting a register to a `u64` keeps a context valid.
pub set_register-IsValid :
    (c : BasicRegisterContext) {c' : BasicRegisterContext} (name : String) (value : ℕ)
    → IsValid c
    → IsU64 value
    → set_register c name value ≡ ok c'
    → IsValid c'
unfolding set_register
set_register-IsValid c {c'} name value v u h = elim (Option-cases (find_name name c.by_name)) [
  | inl e ↦ absurd (ground arith)
  | inr (index, e) ↦ set_register_by_index-IsValid c {c' = c'} index value v u (ground arith)
]

length-snoc : {A : Type 0} (xs : List A) (x : A) → length (xs ++ (x ∷ [])) ≡ suc (length xs)
length-snoc [] x = refl
length-snoc (y ∷ xs) x = ap suc (length-snoc xs x)

-- An entry of a list with one more at its end is an old one, or the new one at the end.
get_elem?-snoc :
    {A : Type 0} (xs : List A) (x : A) (i : ℕ) (a : A)
    → get_elem? (xs ++ (x ∷ [])) i ≡ some a
    → (get_elem? xs i ≡ some a) ⊎ ((i ≡ length xs) × (x ≡ a))
get_elem?-snoc [] x zero a h = inr (refl, some_inj x a h)
  where
    some_inj : {A : Type 0} (x a : A) → some x ≡ some a → x ≡ a
    some_inj x a h = ap (λ o. unwrap_or o x) h
get_elem?-snoc [] x (suc i) a h = absurd (ground arith)
get_elem?-snoc (y ∷ xs) x zero a h = inl h
get_elem?-snoc (y ∷ xs) x (suc i) a h = elim (get_elem?-snoc xs x i a h) [
  | inl e ↦ inl e
  | inr (e, f) ↦ inr (ap suc e, f)
]

value_at-snoc : (vs : List ℕ) (i : ℕ) → IsU64 (value_at vs i) → IsU64 (value_at (vs ++ (0 ∷ [])) i)
value_at-snoc [] zero u = omega arith
value_at-snoc [] (suc i) u = u
value_at-snoc (v ∷ vs) zero u = u
value_at-snoc (v ∷ vs) (suc i) u = value_at-snoc vs i u

push_register-IsValid :
    (c : BasicRegisterContext) (name : String) (parent : Option ℕ) (offset size : ℕ)
    → IsValid c
    → 0 < size
    → offset + size ≤ 64
    → ((p : ℕ) → parent ≡ some p → p < length c.info)
    → IsValid (push_register c name parent offset size).0
unfolding push_register
push_register-IsValid c name parent offset size v positive fits inside = record {
  counted = length-snoc c.values 0 ∙ ap suc v.counted ∙ sym (length-snoc c.info _);
  values_fit = λ i. value_at-snoc c.values i (v.values_fit i);
  positive = λ i r h. elim (get_elem?-snoc c.info _ i r h) [
    | inl e ↦ v.positive i r e
    | inr (e, same) ↦ subst (λ (t : RegisterInfo). 0 < t.size) same positive
  ];
  fits = λ i r h. elim (get_elem?-snoc c.info _ i r h) [
    | inl e ↦ v.fits i r e
    | inr (e, same) ↦ subst (λ (t : RegisterInfo). t.parent_offset + t.size ≤ 64) same fits
  ];
  nested = λ i r p h e. elim (get_elem?-snoc c.info _ i r h) [
    | inl old ↦ omega (arith, v.nested i r p old e, length-snoc c.info)
    | inr (last, same) ↦
        omega (arith, inside p (ap (λ (t : RegisterInfo). t.parent) same ∙ e), length-snoc c.info)
  ];
}

-- Adding a register of 1 to 64 bits keeps a context valid.
pub add_register-IsValid :
    (c : BasicRegisterContext) (name : String) (size : ℕ)
    → IsValid c
    → 0 < size
    → size ≤ 64
    → IsValid (add_register c name size).0
unfolding add_register
add_register-IsValid c name size v positive fits =
    push_register-IsValid c name none 0 size v positive (omega arith)
      (λ p e. absurd (ground (arith, e)))

-- Adding a part of a register that exists keeps a context valid, if the part has at least one bit and
-- ends within 64 bits.
pub add_sub_register-IsValid :
    (c : BasicRegisterContext) (name : String) (parent offset size : ℕ)
    → IsValid c
    → parent < length c.info
    → 0 < size
    → offset + size ≤ 64
    → IsValid (add_sub_register c name parent offset size).0
unfolding add_sub_register
add_sub_register-IsValid c name parent offset size v known positive fits =
    push_register-IsValid c name (some parent) offset size v positive fits
      (λ p e. ground (arith, e, known))
