-- ===== src/Core/Symbols/Agreement.antt =====
-- src/core/symbols.rs: the agreement of the two maps of the symbol table.
use vivisect_rs.Base.{
  ℕ, ◌≡◌, sym, ap, ◌∙◌, true, false, none, some, String, arith, ◌==◌, ==_iff, if◌then◌else◌, str_eq,
  str_eq_iff, Bool-cases, Option-cases, inl, inr,
}
use mathlib.Core.Path.{subst}
use vivisect_rs.BTreeMap.{IsSorted, get, remove}
use vivisect_rs.BTreeMap.Laws.{get-insert, get-remove, insert-IsSorted, remove-IsSorted}
use vivisect_rs.HashMap.{find_name, drop_name}
use vivisect_rs.HashMap.Laws.{find_name-drop_name}
use vivisect_rs.Core.Symbols.{
  SymbolTable, add_symbol, remove_by_address, remove_by_name, get_name, get_address,
}

-- The name of an address has that address, and the address of a name has that name.
pub record IsConsistent (t : SymbolTable) : Type 0 where
  pub sorted : IsSorted t.by_address
  pub named : (a : ℕ) (n : String) → get_name t a ≡ some n → get_address t n ≡ some a
  pub placed : (n : String) (a : ℕ) → get_address t n ≡ some a → get_name t a ≡ some n

-- After `add_symbol` the address has the name and the name the address, and every other address and
-- every other name is looked up as before.
pub add_symbol_lookups :
    (t : SymbolTable) (address : ℕ) (name : String) (a : ℕ) (n : String)
    → (get_name (add_symbol t address name) a ≡ (if a == address then some name else get_name t a))
      × (get_address (add_symbol t address name) n
          ≡ (if str_eq n name then some address else get_address t n))
unfolding add_symbol find_name
add_symbol_lookups t address name a n =
    (get-insert address a name t.by_address, ground (arith, find_name-drop_name name n t.by_name))

names : {x y : String} → some x ≡ some y → x ≡ y
names h = ground arith

-- The maps without an address and without its name agree, if they did.
without-IsConsistent :
    (t : SymbolTable) (address : ℕ) (name : String)
    → IsConsistent t
    → get_name t address ≡ some name
    → get_address t name ≡ some address
    → IsConsistent
        (record { by_address = remove address t.by_address; by_name = drop_name name t.by_name })
without-IsConsistent t address name c e f = record {
  sorted = remove-IsSorted address t.by_address c.sorted;
  named = λ a n h. elim (Bool-cases (str_eq n name)) [
    | inl alike ↦
        let same : n ≡ name = (str_eq_iff n name).0 alike in
        absurd (
          ground (
            arith,
            get-remove address a t.by_address c.sorted,
            c.named a n,
            ap (λ s. find_name s t.by_name) same,
          ))
    | inr apart ↦ ground (
      arith,
      get-remove address a t.by_address c.sorted,
      find_name-drop_name name n t.by_name,
      c.named a n,
    )
  ];
  placed = λ n a h. elim (Bool-cases (a == address)) [
    | inl here ↦ let same : a ≡ address = (==_iff a address).0 here in absurd (taken n a same h)
    | inr elsewhere ↦ ground (
      arith,
      get-remove address a t.by_address c.sorted,
      find_name-drop_name name n t.by_name,
      c.placed n a,
    )
  ];
}
  where
    taken : (n : String) (a : ℕ) → a ≡ address → find_name n (drop_name name t.by_name) ≡ some a → ⊥
    taken n a same h = elim (Bool-cases (str_eq n name)) [
      | inl alike ↦ ground (arith, find_name-drop_name name n t.by_name)
      | inr apart ↦
          let found : get_address t n ≡ some a =
            ground (arith, find_name-drop_name name n t.by_name) in
          let both : some n ≡ some name =
            sym (c.placed n a found) ∙ ap (λ x. get x t.by_address) same ∙ e in
          let alike : str_eq n name ≡ true = (str_eq_iff n name).1 (names both) in ground arith
    ]

-- Removing by an address and removing by a name keep the agreement of the maps.
pub remove_by_address-IsConsistent :
    (t : SymbolTable) (address : ℕ) (name : String)
    → IsConsistent t
    → IsConsistent (remove_by_address t address).0 × IsConsistent (remove_by_name t name).0
unfolding remove_by_address remove_by_name
remove_by_address-IsConsistent t address name c = (
  elim (Option-cases (get address t.by_address)) [
    | inl e ↦
        let same : t ≡ (remove_by_address t address).0 = ground arith in subst IsConsistent same c
    | inr (n, e) ↦
        let same : record {
          by_address = remove address t.by_address;
          by_name = drop_name n t.by_name;
        }
            ≡ (remove_by_address t address).0 =
          ground arith in
        subst IsConsistent same (without-IsConsistent t address n c e (c.named address n e))
  ],
  elim (Option-cases (find_name name t.by_name)) [
    | inl e ↦ let same : t ≡ (remove_by_name t name).0 = ground arith in subst IsConsistent same c
    | inr (a, e) ↦
        let same : record { by_address = remove a t.by_address; by_name = drop_name name t.by_name }
            ≡ (remove_by_name t name).0 =
          ground arith in
        subst IsConsistent same (without-IsConsistent t a name c (c.placed name a e) e)
  ],
)

-- Adding a symbol keeps the agreement of the maps, if neither its address nor its name is in the table.
pub add_symbol-IsConsistent :
    (t : SymbolTable) (address : ℕ) (name : String)
    → IsConsistent t
    → get_name t address ≡ none
    → get_address t name ≡ none
    → IsConsistent (add_symbol t address name)
add_symbol-IsConsistent t address name c e f = record {
  sorted = unfold add_symbol in insert-IsSorted address name t.by_address c.sorted;
  named = λ a n h. named_after a n h (add_symbol_lookups t address name a n);
  placed = λ n a h. placed_after n a h (add_symbol_lookups t address name a n);
}
  where
    Lookups : ℕ → String → Type 0
    Lookups a n =
        (get_name (add_symbol t address name) a
          ≡ (if a == address then some name else get_name t a))
        × (get_address (add_symbol t address name) n
            ≡ (if str_eq n name then some address else get_address t n))

    named_after :
        (a : ℕ) (n : String)
        → get_name (add_symbol t address name) a ≡ some n
        → Lookups a n
        → get_address (add_symbol t address name) n ≡ some a
    named_after a n h (at_a, at_n) = elim (Bool-cases (a == address)) [
      | inl here ↦
          let same : a ≡ address = (==_iff a address).0 here in
          let own : name ≡ n = names (ground arith) in
          let alike : str_eq n name ≡ true = (str_eq_iff n name).1 (sym own) in ground arith
      | inr elsewhere ↦
          let before : get_address t n ≡ some a = c.named a n (ground arith) in
          elim (Bool-cases (str_eq n name)) [
            | inl alike ↦
                let own = ap (get_address t) ((str_eq_iff n name).0 alike) in absurd (ground arith)
            | inr apart ↦ ground arith
          ]
    ]

    placed_after :
        (n : String) (a : ℕ)
        → get_address (add_symbol t address name) n ≡ some a
        → Lookups a n
        → get_name (add_symbol t address name) a ≡ some n
    placed_after n a h (at_a, at_n) = elim (Bool-cases (str_eq n name)) [
      | inl alike ↦
          let own : n ≡ name = (str_eq_iff n name).0 alike in
          let same : address ≡ a = ground arith in
          let e' : some name ≡ some n = ap (λ s. some s) (sym own) in ground arith
      | inr apart ↦
          let before : get_name t a ≡ some n = c.placed n a (ground arith) in
          elim (Bool-cases (a == address)) [
            | inl here ↦
                let own = ap (get_name t) ((==_iff a address).0 here) in absurd (ground arith)
            | inr elsewhere ↦ ground arith
          ]
    ]

-- Where an address gets a second, different name, the first name still has the address, although the
-- address has the second name.
pub add_symbol_renamed :
    (t : SymbolTable) (address : ℕ) (old new : String)
    → IsConsistent t
    → get_name t address ≡ some old
    → str_eq old new ≡ false
    → (get_name (add_symbol t address new) address ≡ some new)
      × (get_address (add_symbol t address new) old ≡ some address)
add_symbol_renamed t address old new c e d =
    let (at_a, at_n) = add_symbol_lookups t address new address old in
    let before = c.named address old e in (ground arith, ground arith)
