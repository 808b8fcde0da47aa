-- ===== src/HashMap/Laws.antt =====
-- Laws of the map by names: lookups after changes.
use vivisect_rs.Base.{
  ◌≡◌, refl, true, false, none, some, String, [], ◌∷◌, arith, if◌then◌else◌, str_eq, str_eq_iff,
  Bool-cases, inl, inr,
}
use vivisect_rs.HashMap.{NameMap, find_name, drop_name, put_name}

pub str_eq_refl : (n : String) → str_eq n n ≡ true
str_eq_refl n = (str_eq_iff n n).1 refl

module _ {ℓ} {V : Type ℓ} where
  pub find_name-drop_name :
      (n q : String) (m : NameMap V)
      → find_name q (drop_name n m) ≡ (if str_eq q n then none else find_name q m)
  unfolding find_name drop_name
  find_name-drop_name n q [] = ground arith
  find_name-drop_name n q ((k, a) ∷ m) = elim (Bool-cases (str_eq n k)) [
    | inl e ↦
        let same : n ≡ k = (str_eq_iff n k).0 e in
        rw (← same, str_eq_refl n) (ground (arith, find_name-drop_name n q m))
    | inr e ↦ elim (Bool-cases (str_eq q n)) [
      | inr apart ↦ ground (arith, find_name-drop_name n q m)
      | inl alike ↦
          let same : q ≡ n = (str_eq_iff q n).0 alike in
          let other : str_eq q k ≡ false = rw same e in ground (arith, find_name-drop_name n q m)
    ]
  ]

  pub find_name-put_name :
      (n q : String) (v : V) (m : NameMap V)
      → find_name q (put_name n v m) ≡ (if str_eq q n then some v else find_name q m)
  unfolding find_name
  find_name-put_name n q v m = ground (arith, find_name-drop_name n q m)
