-- ===== src/Abstractions/Registers/Snapshots.antt =====
-- src/abstractions/registers.rs: snapshots of the registers.
use vivisect_rs.Base.{ℕ, suc, ◌≡◌, refl, sym, ap, ◌∙◌, List, [], ◌∷◌, ◌++◌, arith, length}
use vivisect_rs.Error.{ok}
use vivisect_rs.Abstractions.Registers.{
  BasicRegisterContext, update_at, enumerate, snapshot, restore_values, restore,
}

append-snoc : (done : List ℕ) (v : ℕ) (vs : List ℕ) → (done ++ (v ∷ [])) ++ vs ≡ done ++ (v ∷ vs)
append-snoc [] v vs = refl
append-snoc (d ∷ done) v vs = ap (λ t. d ∷ t) (append-snoc done v vs)

length-snoc : (done : List ℕ) (v : ℕ) → length (done ++ (v ∷ [])) ≡ suc (length done)
length-snoc [] v = refl
length-snoc (d ∷ done) v = ap suc (length-snoc done v)

update_at-append :
    (done : List ℕ) (v w : ℕ) (vs : List ℕ)
    → update_at (length done) (λ old. v) (done ++ (w ∷ vs)) ≡ done ++ (v ∷ vs)
unfolding update_at
update_at-append [] v w vs = refl
update_at-append (d ∷ done) v w vs = ap (λ t. d ∷ t) (update_at-append done v w vs)

restore_values-enumerate :
    (vs ws done : List ℕ)
    → length vs ≡ length ws
    → restore_values (enumerate (length done) vs) (done ++ ws) ≡ done ++ vs
unfolding restore_values enumerate
restore_values-enumerate [] [] done h = refl
restore_values-enumerate [] (w ∷ ws) done h = absurd (omega arith)
restore_values-enumerate (v ∷ vs) [] done h = absurd (omega arith)
restore_values-enumerate (v ∷ vs) (w ∷ ws) done h =
    ap (restore_values (enumerate (suc (length done)) vs))
      (update_at-append done v w ws ∙ sym (append-snoc done v ws))
    ∙ ap (λ t. restore_values (enumerate t vs) ((done ++ (v ∷ [])) ++ ws))
        (sym (length-snoc done v))
    ∙ restore_values-enumerate vs ws (done ++ (v ∷ [])) (omega arith)
    ∙ append-snoc done v vs

-- Restoring a snapshot in any context with as many registers gives that context the values of the
-- context that the snapshot was taken of.
pub restore-snapshot :
    (c later : BasicRegisterContext)
    → length c.values ≡ length later.values
    → restore later (snapshot c) ≡ ok (record later { values = c.values })
unfolding restore snapshot
restore-snapshot c later h =
    ap (λ t. ok (record later { values = t })) (restore_values-enumerate c.values later.values [] h)
