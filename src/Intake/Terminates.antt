-- ===== src/Intake/Terminates.antt =====
-- The state machine of src/intake/state.ts as a run of transitions.
use aisdlc.Prelude.{◌≡◌, arith, ◌≤◌, ◌<◌, ◌+◌, ℕ, suc, true, ◌⊎◌, Bool-cases, leb, inl, inr}
use aisdlc.Collections.{IntakeStatus}
use aisdlc.Intake.State.{can_transition, initial_intake_status, intake_transitions, is_terminal}

-- A run of `n` transitions that the table allows.
pub data Course (from : IntakeStatus) : IntakeStatus → ℕ → Type 0 where
  stay : Course from from 0
  then_to :
      {s : IntakeStatus} {n : ℕ}
      → Course from s n
      → (to : IntakeStatus) → can_transition s to ≡ true
      → Course from to (suc n)

-- How many transitions can still follow.
abbrev pub left : IntakeStatus → ℕ
left IntakeStatus.received = 2
left IntakeStatus.pending_approval = 1
left IntakeStatus.approved = 0
left IntakeStatus.rejected = 0
left IntakeStatus.failed = 0

transition-left : (s t : IntakeStatus) → can_transition s t ≡ true → suc (left t) ≤ left s
unfolding can_transition
transition-left s t h = ground arith

Course-left : (s t : IntakeStatus) (n : ℕ) → Course s t n → n + left t ≤ left s
Course-left s end n stay = omega arith
Course-left s end n (then_to {s = u} {n = m} run t h) =
    omega (arith, Course-left s u m run, transition-left u t h)

left-terminal : (s : IntakeStatus) → left s ≡ 0 → is_terminal s ≡ true
unfolding is_terminal intake_transitions
left-terminal s h = ground arith

-- A run of the intake state machine from the initial status has at most two transitions, and
-- after two it is in a terminal status.
pub Course-terminates :
    (s : IntakeStatus) (n : ℕ)
    → Course initial_intake_status s n
    → (n ≤ 2) × ((n < 2) ⊎ (is_terminal s ≡ true))
Course-terminates s n run =
    let bound = Course-left initial_intake_status s n run in
    elim (Bool-cases (leb n 1)) [
      | inl less ↦ (omega (arith, bound), inl (ground arith))
      | inr more ↦ (
        omega (arith, bound),
        inr (left-terminal s (let big : 1 < n = ground arith in omega (arith, bound, big))),
      )
    ]
