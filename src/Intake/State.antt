-- ===== src/Intake/State.antt =====
-- src/intake/state.ts
use aisdlc.Prelude.{Bool, true, false, not, List, [], ◌∷◌, any, if◌then◌else◌}
use aisdlc.Text.{Text, codes}
use aisdlc.Collections.{IntakeStatus, received, pending_approval, approved, rejected, failed}
use aisdlc.Effect.{Action, ok, err}
use aisdlc.Errors.{Error, invalid_transition}

-- The string of a status.
unfoldable pub status_name : IntakeStatus → Text
status_name received = codes "received"
status_name pending_approval = codes "pending_approval"
status_name approved = codes "approved"
status_name rejected = codes "rejected"
status_name failed = codes "failed"

-- `a === b` for two statuses.
unfoldable pub same_status : IntakeStatus → IntakeStatus → Bool
same_status received received = true
same_status pending_approval pending_approval = true
same_status approved approved = true
same_status rejected rejected = true
same_status failed failed = true
same_status _ _ = false

abbrev pub initial_intake_status : IntakeStatus
initial_intake_status = received

unfoldable pub intake_transitions : IntakeStatus → List IntakeStatus
intake_transitions received = pending_approval ∷ failed ∷ []
intake_transitions pending_approval = approved ∷ rejected ∷ failed ∷ []
intake_transitions approved = []
intake_transitions rejected = []
intake_transitions failed = []

unfoldable pub can_transition : IntakeStatus → IntakeStatus → Bool
unfolding intake_transitions any same_status
can_transition from to = any (λ s. same_status s to) (intake_transitions from)

unfoldable pub assert_transition :
    {W : Type 0} → IntakeStatus → IntakeStatus → Action W Error (Unit {0})
unfolding can_transition
assert_transition from to w =
    if not (can_transition from to) then (err (invalid_transition from to), w) else (ok tt, w)

unfoldable pub is_terminal : IntakeStatus → Bool
unfolding intake_transitions
is_terminal status = elim (intake_transitions status) [ [] ↦ true | s ∷ ss ↦ false ]
