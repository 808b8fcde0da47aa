-- ===== src/Abstractions/Registers/Tests.antt =====
-- src/abstractions/registers.rs: runs on the context of its unit tests.
use vivisect_rs.Base.{
  ℕ, zero, suc, ◌+◌, ◌≤◌, ◌<◌, ◌%◌, ◌^◌, ◌≡◌, refl, none, some, [], ◌∷◌, arith, get_elem?,
}
use mathlib.Core.Path.{subst, ap, ◌∙◌}
use vivisect_rs.Word.{IsU64}
use vivisect_rs.Error.{ok}
use vivisect_rs.HashMap.{find_name}
use vivisect_rs.Abstractions.Registers.{
  RegisterInfo, BasicRegisterContext, value_at, get_register, set_register, bit_mask, update_at,
  write_values, set_register_by_index,
}
use vivisect_rs.Abstractions.Registers.Views.{IsValid}
use vivisect_rs.Abstractions.Registers.Access.{get_register-set_register}

abbrev rax : RegisterInfo
rax = record { name = "rax"; index = 0; size = 64; parent = none; parent_offset = 0 }

abbrev al : RegisterInfo
al = record { name = "al"; index = 1; size = 8; parent = some 0; parent_offset = 0 }

abbrev ah : RegisterInfo
ah = record { name = "ah"; index = 2; size = 8; parent = some 0; parent_offset = 8 }

abbrev context : BasicRegisterContext
context = record {
  values = 4660 ∷ 0 ∷ 0 ∷ [];
  by_name = ("ah", 2) ∷ ("al", 1) ∷ ("rax", 0) ∷ [];
  info = rax ∷ al ∷ ah ∷ [];
  pc_index = 0;
  sp_index = 0;
}

values_fit : (i : ℕ) → IsU64 (value_at context.values i)
values_fit zero = omega arith
values_fit (suc zero) = omega arith
values_fit (suc (suc zero)) = omega arith
values_fit (suc (suc (suc i))) = omega arith

-- A register of at least one bit that ends within 64 bits.
abbrev IsSized : RegisterInfo → Type 0
IsSized r = (0 < r.size) × (r.parent_offset + r.size ≤ 64)

sizes : (i : ℕ) (r : RegisterInfo) → get_elem? context.info i ≡ some r → IsSized r
sizes zero r h = let e : rax ≡ r = ground arith in subst IsSized e (omega arith, omega arith)
sizes (suc zero) r h = let e : al ≡ r = ground arith in subst IsSized e (omega arith, omega arith)
sizes (suc (suc zero)) r h =
    let e : ah ≡ r = ground arith in subst IsSized e (omega arith, omega arith)
sizes (suc (suc (suc i))) r h = absurd (ground arith)

places :
    (i : ℕ) (r : RegisterInfo) (p : ℕ)
    → get_elem? context.info i ≡ some r
    → r.parent ≡ some p
    → p < 3
places zero r p h e =
    let s : rax ≡ r = ground arith in
    let f : none ≡ some p = ap (λ t. t.parent) s ∙ e in absurd (ground arith)
places (suc zero) r p h e =
    let s : al ≡ r = ground arith in
    let f : some 0 ≡ some p = ap (λ t. t.parent) s ∙ e in ground arith
places (suc (suc zero)) r p h e =
    let s : ah ≡ r = ground arith in
    let f : some 0 ≡ some p = ap (λ t. t.parent) s ∙ e in ground arith
places (suc (suc (suc i))) r p h e = absurd (ground arith)

context-IsValid : IsValid context
context-IsValid = record {
  counted = refl;
  values_fit = values_fit;
  positive = λ i r h. (sizes i r h).0;
  fits = λ i r h. (sizes i r h).1;
  nested = places;
}

al_named : find_name "al" context.by_name ≡ some 1
unfolding find_name
al_named = refl

ah_named : find_name "ah" context.by_name ≡ some 2
unfolding find_name
ah_named = refl

get_register-set_register_example :
    (c' : BasicRegisterContext) × (set_register context "al" 511 ≡ ok c')
    × (get_register c' "al" ≡ ok (511 % 2 ^ 8))
get_register-set_register_example =
    get_register-set_register context "al" 1 511 al context-IsValid al_named refl

abbrev later : BasicRegisterContext
later = record context { values = 4863 ∷ 0 ∷ 0 ∷ [] }

al_set : set_register context "al" 511 ≡ ok later
unfolding set_register set_register_by_index find_name write_values update_at bit_mask
al_set = refl
