-- ===== src/Core/Workspace/VaSets.antt =====
-- src/core/workspace.rs: the rows of the named sets of addresses.
use vivisect_rs.Base.{
  ℕ, ◌≡◌, refl, sym, ap, ◌∙◌, ◌&&◌, Option, none, some, String, List, [], ◌==◌, if◌then◌else◌,
  str_eq, str_eq_iff, unwrap_or, Bool-cases, inl, inr,
}
use vivisect_rs.BTreeMap.{get}
use vivisect_rs.HashMap.{find_name}
use vivisect_rs.HashMap.Laws.{find_name-put_name}
use vivisect_rs.IndexMap.{IndexMaps}
use vivisect_rs.Core.Workspace.{VivWorkspace}
use vivisect_rs.Core.Records.{VaSet}
use vivisect_rs.Core.Workspace.Setters.{set_va_set_row, get_va_set_rows}

-- The row of an address in a set that may be missing.
abbrev pub row_of : (I : IndexMaps) → ℕ → Option (VaSet I) → Option (List String)
row_of I q none = none
row_of I q (some set) = I.find q set.rows

row_of-unwrap_or :
    (I : IndexMaps) (q : ℕ) (o : Option (VaSet I))
    → I.find q (unwrap_or o (record { columns = []; rows = I.empty })).rows ≡ row_of I q o
unfolding get
row_of-unwrap_or I q none =
    sym (I.get-entries q I.empty) ∙ ap (λ m. get q m) (I.entries-empty {V = List String})
row_of-unwrap_or I q (some set) = refl

module _ (I : IndexMaps) {L : Type 0} where
  -- The rows that `get_va_set_rows` lists are those of the set.
  get-get_va_set_rows :
      (ws : VivWorkspace I L) (name : String) (q : ℕ)
      → get q (get_va_set_rows ws name) ≡ row_of I q (find_name name ws.va_sets)
  unfolding get_va_set_rows get
  get-get_va_set_rows ws name q = by_set (find_name name ws.va_sets)
    where
      by_set :
          (o : Option (VaSet I))
          → get q (elim o as (λ x. List (ℕ × List String)) [
            | none ↦ []
            | some set ↦ I.entries set.rows
          ])
            ≡ row_of I q o
      by_set none = refl
      by_set (some set) = I.get-entries q set.rows

  -- After `set_va_set_row`, the address has the row in the named set, which is made if it is missing, and
  -- every other row of every set is as it was.
  pub get_va_set_rows-set_va_set_row :
      (ws : VivWorkspace I L) (name other : String) (va q : ℕ) (row : List String)
      → get q (get_va_set_rows (set_va_set_row ws name va row) other)
        ≡ (if str_eq other name && q == va then some row else get q (get_va_set_rows ws other))
  unfolding set_va_set_row
  get_va_set_rows-set_va_set_row ws name other va q row =
      let old = unwrap_or (find_name name ws.va_sets) (record { columns = []; rows = I.empty }) in
      let new : VaSet I = record old { rows = I.put va row old.rows } in
      get-get_va_set_rows (set_va_set_row ws name va row) other q
      ∙ ap (λ o. row_of I q o) (find_name-put_name name other new ws.va_sets)
      ∙ elim (Bool-cases (str_eq other name)) [
        | inr apart ↦ rw apart (sym (get-get_va_set_rows ws other q))
        | inl same ↦ rw same (
            I.find-put va q row old.rows
            ∙ ap (λ r. if q == va then some row else r)
                (row_of-unwrap_or I q (find_name name ws.va_sets)
                  ∙ ap (λ n. row_of I q (find_name n ws.va_sets))
                      (sym ((str_eq_iff other name).0 same))
                  ∙ sym (get-get_va_set_rows ws other q)))
      ]
