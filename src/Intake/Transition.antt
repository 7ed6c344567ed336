-- ===== src/Intake/Transition.antt =====
-- The successful transition of src/intake/repository.ts.
use mathlib.Core.Option
use aisdlc.Prelude.{
  ℕ, ◌≡◌, arith, ap, Option, List, true, some, first, update_first, none, sym, ◌∙◌, [], ◌++◌,
  first-some→test, &&-split, ◌∷◌,
}
use aisdlc.Effect.{Result, ok}
use aisdlc.Collections.{IntakeStatus, approved, operator_principal_prefix}
use aisdlc.Db.{Db, World}
use aisdlc.Store.{ObjectId}
use aisdlc.Intake.State.{same_status, can_transition, assert_transition}
use aisdlc.Text.{Text, starts_with}
use aisdlc.Documents.{IntakeItem}
use aisdlc.Intake.Repository.{
  require_by_issue_key, compare_and_set, TransitionOptions, transition, or_else, require_operator,
  key_is, key_status_are, apply_update, transition_entry,
}
use aisdlc.Effect.Laws.{>>=-ok}
use aisdlc.AuditLog.{append}
use aisdlc.AuditLog.Laws.{append-ok, stored, entries}

pub same_status→eq : (s t : IntakeStatus) → same_status s t ≡ true → s ≡ t
unfolding same_status
same_status→eq s t h = ground arith

-- The approver that a transition records.
abbrev pub HasOperator : Option Text → Type 0
HasOperator none = ⊥
HasOperator (some who) = starts_with who operator_principal_prefix ≡ true

abbrev pub items : (db : Db) → World db → List IntakeItem
items db w = db.intake_items.docs w.intake_items

pair-ok :
    {W E A : Type 0} {a b : A} {w w' : W}
    → ◌≡◌ {A = Result E A × W} (ok a, w) (ok b, w')
    → (a ≡ b) × (w ≡ w')
pair-ok h = (cc, cc)

module _ (db : Db) (issue_key : Text) where
  pub require_by_issue_key-ok :
      (w : World db) {item : IntakeItem} {w' : World db}
      → require_by_issue_key db issue_key w ≡ (ok item, w')
      → (first (key_is issue_key) (items db w) ≡ some item) × (w' ≡ w)
  unfolding require_by_issue_key
  require_by_issue_key-ok w h =
      ground (arith, db.intake_items.find_one_lem (key_is issue_key) w.intake_items)

  pub compare_and_set-ok :
      (from : IntakeStatus) (update : IntakeItem → IntakeItem) (w : World db) {item : IntakeItem}
      {w' : World db}
      → compare_and_set db issue_key from update w ≡ (ok item, w')
      → (old : IntakeItem) × (first (key_status_are issue_key from) (items db w) ≡ some old)
        × (item ≡ update old)
        × (items db w' ≡ update_first (key_status_are issue_key from) update (items db w))
        × (w' ≡ record w { intake_items = w'.intake_items })
  unfolding compare_and_set
  compare_and_set-ok from update w {item} {w'} h =
      let p = key_status_are issue_key from in
      let result = db.intake_items.find_one_and_update_result p update w.intake_items in
      let written = db.intake_items.find_one_and_update_docs p update w.intake_items in
      let stored : (db.intake_items.find_one_and_update p update w.intake_items).0 ≡ some item =
        ground arith in
      let (old, found, same) = (Option.map-eq-some_iff _ _).0 (sym result ∙ stored) in
      (old, found, sym same, ground (arith, written), ground arith)

module _ (db : Db) (step : World db → World db) (now audit_now : ℕ) (issue_key : Text)
    (to : IntakeStatus) (opts : TransitionOptions) (w : World db) where
  -- What a successful transition has done: `read` is the item that was looked up in `w`, and `old`
  -- the item that the compare-and-set met, after the other clients had acted.
  pub record Moved (item : IntakeItem) (w' : World db) : Type 0 where
    pub read : IntakeItem
    pub old : IntakeItem
    pub entry_id : ObjectId
    pub seen : first (key_is issue_key) (items db w) ≡ some read
    pub allowed : can_transition read.status to ≡ true
    pub operator : to ≡ approved → HasOperator (some (or_else opts.approved_by []))
    pub found : first (key_status_are issue_key read.status) (items db (step w)) ≡ some old
    pub unchanged : old.status ≡ read.status
    pub result : item ≡ apply_update now to opts old
    pub written :
        items db w'
        ≡ update_first
            (key_status_are issue_key read.status)
            (apply_update now to opts)
            (items db (step w))
    pub audited :
        entries db w'
        ≡ entries db (step w)
          ++ stored audit_now (transition_entry issue_key read.status to read.id opts) entry_id ∷ []

  assert_transition-ok :
      {W : Type 0} (from : IntakeStatus) (v : W) {u : Unit {0}} {v' : W}
      → assert_transition from to v ≡ (ok u, v')
      → (can_transition from to ≡ true) × (v' ≡ v)
  unfolding assert_transition
  assert_transition-ok from v h = ground arith

  require_operator-ok :
      {W : Type 0} (v : W) {u : Unit {0}} {v' : W}
      → require_operator to opts v ≡ (ok u, v')
      → (to ≡ approved → HasOperator (some (or_else opts.approved_by []))) × (v' ≡ v)
  unfolding require_operator
  require_operator-ok v h = ground arith

  assemble :
      {current result old item : IntakeItem} {id : ObjectId} {w1 w2 w3 w4 w5 w' : World db}
      → (first (key_is issue_key) (items db w) ≡ some current) × (w1 ≡ w)
      → (can_transition current.status to ≡ true) × (w2 ≡ w1)
      → (to ≡ approved → HasOperator (some (or_else opts.approved_by []))) × (w3 ≡ w2)
      → first (key_status_are issue_key current.status) (items db (step w3)) ≡ some old
      → result ≡ apply_update now to opts old
      → items db w4
        ≡ update_first
            (key_status_are issue_key current.status)
            (apply_update now to opts)
            (items db (step w3))
      → w4 ≡ record (step w3) { intake_items = w4.intake_items }
      → append db audit_now (transition_entry issue_key current.status to current.id opts) w4
        ≡ (ok id, w5)
      → (result ≡ item) × (w5 ≡ w')
      → Moved item w'
  assemble {current} {old} {id} {w4} {w5} {w'} seen allowed operator found result written rest
        appended end =
      let (added, frame) =
        append-ok db audit_now (transition_entry issue_key current.status to current.id opts) w4
          appended in
      let same = operator.1 ∙ allowed.1 ∙ seen.1 in
      record {
        read = current;
        old = old;
        entry_id = id;
        seen = seen.0;
        allowed = allowed.0;
        operator = operator.0;
        found = rw same at found;
        unchanged =
            same_status→eq _ _
              (&&-split _ _ (first-some→test (key_status_are issue_key current.status) _ found)).1;
        result = sym end.0 ∙ result;
        written = ap (items db) (sym end.1 ∙ frame) ∙ (rw same at written);
        audited = ap (entries db) (sym end.1) ∙ (rw (ap (entries db) (rw same at rest)) at added);
      }

  pub transition-Moved :
      {item : IntakeItem} {w' : World db}
      → transition db step now audit_now issue_key to opts w ≡ (ok item, w')
      → Moved item w'
  unfolding transition
  transition-Moved {item} {w'} h =
      let (current, w1, read, h1) = >>=-ok (require_by_issue_key db issue_key) _ w h in
      let (u, w2, asserted, h2) = >>=-ok (assert_transition current.status to) _ w1 h1 in
      let (v, w3, operator, h3) = >>=-ok (require_operator to opts) _ w2 h2 in
      let (result, w4, moved, h4) =
        >>=-ok (compare_and_set db issue_key current.status (apply_update now to opts)) _ (step w3)
          h3 in
      let (id, w5, appended, h5) =
        >>=-ok (append db audit_now (transition_entry issue_key current.status to current.id opts))
          _ w4 h4 in
      let (old, found, same_result, written, rest) =
        compare_and_set-ok db issue_key _ _ (step w3) moved in
      assemble (require_by_issue_key-ok db issue_key w read)
        (assert_transition-ok current.status w1 asserted) (require_operator-ok w2 operator) found
        same_result written rest appended (pair-ok h5)
