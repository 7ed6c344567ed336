-- ===== src/Intake/History.antt =====
-- transition of src/intake/repository.ts, as what it makes of the stored items.
use aisdlc.Prelude.{
  ℕ, ◌≡◌, refl, arith, ap, ◌⊎◌, inl, inr, Bool-cases, List, true, [], ◌∷◌, update_first, some, ◌≢◌,
  none, &&-split, All, All-update_first,
}
use aisdlc.Intake.Transition.{items, HasOperator, same_status→eq}
use aisdlc.Intake.State.{can_transition}
use aisdlc.Documents.{IntakeItem}
use aisdlc.Intake.Repository.{apply_update, TransitionOptions, key_status_are, transition, or_else}
use aisdlc.Collections.{IntakeStatus, approved}
use aisdlc.Db.{Db, World}
use aisdlc.Text.{Text, same}
use aisdlc.Intake.Outcome.{
  Outcome, transition-Outcome, absent, illegal, no_operator, lost, moved, unaudited,
}
use aisdlc.Effect.{Result}
use aisdlc.Errors.{Error}

-- An approved item carries an operator and the time of the approval.
pub record IsSound (item : IntakeItem) : Type 0 where
  pub approver : item.status ≡ approved → HasOperator item.approved_by
  pub approved_when : item.status ≡ approved → item.approved_at ≢ none

-- One item, before and after: the same, or moved along an edge, with its identity and content kept.
pub data Advance (d e : IntakeItem) : Type 0 where
  stays : d ≡ e → Advance d e
  edge :
      can_transition d.status e.status ≡ true
      → d.id ≡ e.id
      → d.issue_key ≡ e.issue_key
      → d.snapshot ≡ e.snapshot
      → d.source_hash ≡ e.source_hash
      → Advance d e

-- The stored items, before and after: none is lost, and each advances at most once.
pub data Evolves : List IntakeItem → List IntakeItem → Type 0 where
  done : Evolves [] []
  next :
      {d e : IntakeItem} {ds es : List IntakeItem}
      → Advance d e
      → Evolves ds es
      → Evolves (d ∷ ds) (e ∷ es)

Evolves-refl : (ds : List IntakeItem) → Evolves ds ds
Evolves-refl [] = done
Evolves-refl (d ∷ ds) = next (stays refl) (Evolves-refl ds)

apply_update-status :
    (now : ℕ) (to : IntakeStatus) (opts : TransitionOptions) (d : IntakeItem)
    → (apply_update now to opts d).status ≡ to
unfolding apply_update
apply_update-status now to opts d = ground arith

module _ (now : ℕ) (to : IntakeStatus) (opts : TransitionOptions) (issue_key : Text)
    (from : IntakeStatus) where
  apply_update-Advance :
      (d : IntakeItem)
      → can_transition from to ≡ true
      → key_status_are issue_key from d ≡ true
      → Advance d (apply_update now to opts d)
  unfolding apply_update
  apply_update-Advance d allowed met =
      let status : d.status ≡ from =
        same_status→eq d.status from (&&-split (same d.issue_key issue_key) _ met).1 in
      edge (cc (apply_update-status now to opts d)) (ground arith) (ground arith) (ground arith)
        (ground arith)

  update_first-Evolves :
      (ds : List IntakeItem)
      → can_transition from to ≡ true
      → Evolves ds (update_first (key_status_are issue_key from) (apply_update now to opts) ds)
  unfolding update_first
  update_first-Evolves [] allowed = done
  update_first-Evolves (d ∷ ds) allowed = elim (Bool-cases (key_status_are issue_key from d)) [
    | inl met ↦ rw met (next (apply_update-Advance d allowed met) (Evolves-refl ds))
    | inr other ↦ rw other (next (stays refl) (update_first-Evolves ds allowed))
  ]

  apply_update-IsSound :
      (d : IntakeItem)
      → (to ≡ approved → HasOperator (some (or_else opts.approved_by [])))
      → IsSound (apply_update now to opts d)
  unfolding apply_update
  apply_update-IsSound d operator = ground arith

module _ (db : Db) (step : World db → World db) (now audit_now : ℕ) (issue_key : Text)
    (to : IntakeStatus) (opts : TransitionOptions) (w : World db) where
  abbrev final : World db
  final = (transition db step now audit_now issue_key to opts w).1

  abbrev IsOutcome : World db → Result Error IntakeItem → Type 0
  IsOutcome w' r = Outcome db step now audit_now issue_key to opts w r w'

  Outcome-Evolves :
      {r : Result Error IntakeItem} {w' : World db}
      → IsOutcome w' r
      → (items db w' ≡ items db w) ⊎ Evolves (items db (step w)) (items db w')
  Outcome-Evolves (absent _ _ kept) = inl (ap (items db) kept)
  Outcome-Evolves (illegal _ _ _ _ kept) = inl (ap (items db) kept)
  Outcome-Evolves (no_operator _ _ _ kept) = inl (ap (items db) kept)
  Outcome-Evolves (lost _ _ _ _ kept _) = inr (rw kept (Evolves-refl _))
  Outcome-Evolves (moved item _ m) =
      inr (rw (m.written) (update_first-Evolves now to opts issue_key m.read.status _ m.allowed))
  Outcome-Evolves (unaudited item _ _ _ allowed _ _ written _ _ _) =
      inr (rw written (update_first-Evolves now to opts issue_key item.status _ allowed))

  Outcome-IsSound :
      {r : Result Error IntakeItem} {w' : World db}
      → IsOutcome w' r
      → All IsSound (items db w)
      → All IsSound (items db (step w))
      → All IsSound (items db w')
  Outcome-IsSound (absent _ _ kept) before after = rw (ap (items db) kept) before
  Outcome-IsSound (illegal _ _ _ _ kept) before after = rw (ap (items db) kept) before
  Outcome-IsSound (no_operator _ _ _ kept) before after = rw (ap (items db) kept) before
  Outcome-IsSound (lost _ _ _ _ kept _) before after = rw kept after
  Outcome-IsSound (moved item _ m) before after = rw (m.written) (
      All-update_first IsSound _ _ _ after
        (λ d _ _. apply_update-IsSound now to opts issue_key m.read.status d m.operator))
  Outcome-IsSound (unaudited item _ _ _ _ operator _ written _ _ _) before after = rw written (
      All-update_first IsSound _ _ _ after
        (λ d _ _. apply_update-IsSound now to opts issue_key item.status d operator))

  -- After a transition, whatever its outcome and whatever other clients do meanwhile, either the
  -- items are those that it read, or, compared with what the other clients left, no item is lost
  -- and each stays as it is or moves along one edge of the state machine with its id, key,
  -- snapshot and source hash kept.
  pub transition-Evolves :
      (items db final ≡ items db w) ⊎ Evolves (items db (step w)) (items db final)
  transition-Evolves =
      Outcome-Evolves (transition-Outcome db step now audit_now issue_key to opts w)

  -- If every approved item names a human operator and the time of its approval, before a
  -- transition and after the step of the other clients, then every approved item does so after
  -- it, whether the call succeeds or throws.
  pub transition-IsSound :
      All IsSound (items db w) → All IsSound (items db (step w)) → All IsSound (items db final)
  transition-IsSound before after =
      Outcome-IsSound (transition-Outcome db step now audit_now issue_key to opts w) before after
