-- ===== src/Publish/Bounded.antt =====
-- What the commit message and the pull request of src/github-publish/pr-content.ts may hold.
use aisdlc.Prelude.{
  ◌≡◌, refl, arith, ap, ◌≤◌, ◌<◌, ◌-◌, ℕ, zero, suc, Bool-cases, inl, inr, List, [], ◌∷◌, length,
  take, map, leb, leb→le, length-append,
}
use aisdlc.Text.{Text, trim, trim_end}
use aisdlc.Store.{ObjectId}
use aisdlc.Documents.{ChangeReview, ChangeExecution, ProposedChange, AppliedChange}
use aisdlc.Publish.Content.{
  truncate, commit_subject, subject_prefix, build_commit_message, PublishIdentifiers,
  build_pull_request_content, listed, to_applied,
}

length-trim_end : (s : Text) → length (trim_end s) ≤ length s
unfolding trim_end
length-trim_end [] = omega arith
length-trim_end (c ∷ s) = ground (arith, length-trim_end s)

length-take : (n : ℕ) (s : Text) → length (take n s) ≤ n
length-take zero s = omega arith
length-take (suc n) [] = omega arith
length-take (suc n) (c ∷ s) = omega (arith, length-take n s)

pub length-truncate : (s : Text) (n : ℕ) → 0 < n → length (truncate s n) ≤ n
unfolding truncate
length-truncate s n positive = elim (Bool-cases (leb (length (trim s)) n)) [
  | inl short ↦ rw (truncate, short) (leb→le (length (trim s)) n short)
  | inr long ↦
      let cut = length-trim_end (take (n - 1) (trim s)) in
      let taken = length-take (n - 1) (trim s) in
      let joined = length-append (trim_end (take (n - 1) (trim s))) (0x2026 ∷ []) in
      rw (truncate, long) (omega (arith, cut, taken, joined, positive))
]

-- The subject of the commit message has at most 72 code units, for every summary of the plan.
pub commit_subject-bound : (summary : Text) → length (commit_subject summary) ≤ 72
unfolding commit_subject subject_prefix
commit_subject-bound summary =
    let joined = length-append subject_prefix (truncate summary 64) in
    let cut = length-truncate summary 64 (omega arith) in omega (arith, joined, cut)

-- The review with other contents for its changes.
abbrev pub with_contents : (ProposedChange → Text) → ProposedChange → ProposedChange
with_contents f c = record c { proposed_content = f c }

abbrev pub with_other_contents : (ProposedChange → Text) → ChangeReview → ChangeReview
with_other_contents f review = record review {
  proposed_changes = map (with_contents f) review.proposed_changes;
}

length-map :
    (f : ProposedChange → ProposedChange) (cs : List ProposedChange) → length (map f cs) ≡ length cs
length-map f [] = refl
length-map f (c ∷ cs) = ap suc (length-map f cs)

applied-same :
    (f : ProposedChange → Text) (cs : List ProposedChange)
    → map to_applied (map (with_contents f) cs) ≡ map to_applied cs
applied-same f [] = refl
applied-same f (c ∷ cs) = ap (λ rest. to_applied c ∷ rest) (applied-same f cs)

module _ (hex : ObjectId → Text) (review : ChangeReview) (execution : ChangeExecution)
    (ids : PublishIdentifiers) (f : ProposedChange → Text) where
  listed-same :
      (applied : List AppliedChange)
      → listed applied (map (with_contents f) review.proposed_changes)
        ≡ listed applied review.proposed_changes
  listed-same [] = applied-same f review.proposed_changes
  listed-same (c ∷ cs) = refl

  -- The commit message, and the title and the body of the pull request, stay the same when the
  -- contents of the proposed files are replaced by any others.
  pub publish_content-Independent :
      (build_commit_message hex (with_other_contents f review) ids
        ≡ build_commit_message hex review ids)
      × (build_pull_request_content hex (with_other_contents f review) execution ids
          ≡ build_pull_request_content hex review execution ids)
  unfolding build_commit_message build_pull_request_content
  publish_content-Independent = (
    rw (length-map (with_contents f) review.proposed_changes) refl,
    rw (listed-same execution.applied_changes) refl,
  )
