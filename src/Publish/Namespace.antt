-- ===== src/Publish/Namespace.antt =====
-- What publishing (src/github-publish) may do to GitHub as a whole.
use aisdlc.Prelude.{◌≡◌, refl, Option, some, none, List, ◌⊎◌, inl, inr, ℕ}
use aisdlc.Effect.{Action}
use aisdlc.Effect.Keeps.{Keeps, Keeps-then, Keeps-map}
use aisdlc.Errors.{Error, Do}
use aisdlc.Text.{Text}
use aisdlc.Store.{ObjectId}
use aisdlc.Db.{Db, World}
use aisdlc.Documents.{ChangeReview, ChangeExecution, Datum}
use aisdlc.GithubApp.Client.{Repo, GithubAppClient, TreeFileEntry, PullRequestSummary}
use aisdlc.Publish.Records.{PublishFailureCategory, PublishResult}
use aisdlc.Publish.BranchName.{
  BranchNameResult, valid_branch, invalid_ref_name, protected_branch, validate_branch_name,
}
use aisdlc.Publish.Publications.{RecordPublicationInput}
use aisdlc.Site.{Site, on_world, on_remote}
use aisdlc.Publish.Build.{Stop, Commit}
use aisdlc.Publish.Confined.{
  IsConfined, collect_files-Keeps, build_commit-Keeps, push_branch-Keeps, open_pull_request-Keeps,
}
use aisdlc.Publish.Attempt.{
  note, record_outcome, fail, succeed, after_pull_request, after_push, after_name, after_build,
  after_files, attempt, pull_request_input, recorded_result,
}

abbrev pub Remotely : {db : Db} {R : Type 0} → (R → Type 0) → Site db R → Type 0
Remotely P s = P s.remote

module _ {db : Db} {R : Type 0} (P : R → Type 0) where
  pub Keeps-on_world : {A : Type 0} (m : Do db A) → Keeps (Remotely P) (on_world {R = R} m)
  unfolding on_world
  Keeps-on_world m = record { at = λ s h. h }

  pub Keeps-on_remote :
      {A : Type 0} {m : Action R Error A} → Keeps P m → Keeps (Remotely P) (on_remote {db = db} m)
  unfolding on_remote
  Keeps-on_remote k = record { at = λ s h. k.at s.remote h }

module _ (db : Db) {R : Type 0} (client : GithubAppClient R) (hex : ObjectId → Text)
    (to_lower sha256 : Text → Text) (message : Stop → Text) (step : World db → World db)
    (now audit_now : ℕ) (run_id execution_id : ObjectId) (execution : ChangeExecution)
    (review : ChangeReview) (target : Repo) (P : R → Type 0)
    (c : IsConfined client to_lower P) where
  note-Keeps :
      (action : Text) (detail : List (Text × Datum))
      → Keeps (Remotely P) (
          note db client hex to_lower sha256 message step now audit_now run_id execution_id
            execution review target action detail)
  unfolding note
  note-Keeps action detail = Keeps-on_world P _

  record_outcome-Keeps :
      (input : RecordPublicationInput) (own : PublishResult)
      → Keeps (Remotely P) (
          record_outcome db client hex to_lower sha256 message step now audit_now run_id
            execution_id execution review target input own)
  unfolding record_outcome
  record_outcome-Keeps input own =
      Keeps-map
        (recorded_result db client hex to_lower sha256 message step now audit_now run_id
          execution_id execution review target own)
        _ (Keeps-on_world P _)

  fail-Keeps :
      (stop : Stop)
      → Keeps (Remotely P) (
          fail db client hex to_lower sha256 message step now audit_now run_id execution_id
            execution review target stop)
  unfolding fail
  fail-Keeps stop = record_outcome-Keeps _ _

  after_pull_request-Keeps :
      (branch : Text) (commit : Commit) (pr : Option PullRequestSummary)
      → Keeps (Remotely P) (
          after_pull_request db client hex to_lower sha256 message step now audit_now run_id
            execution_id execution review target branch commit pr)
  unfolding after_pull_request succeed
  after_pull_request-Keeps branch commit none = fail-Keeps _
  after_pull_request-Keeps branch commit (some pr) =
      Keeps-then _ _ (note-Keeps _ _) λ id. record_outcome-Keeps _ _

  after_push-Keeps :
      (branch : Text) (commit : Commit) (stopped : Option PublishFailureCategory)
      → validate_branch_name to_lower branch review.branch ≡ valid_branch
      → Keeps (Remotely P) (
          after_push db client hex to_lower sha256 message step now audit_now run_id execution_id
            execution review target branch commit stopped)
  unfolding after_push pull_request_input
  after_push-Keeps branch commit (some category) valid = fail-Keeps _
  after_push-Keeps branch commit none valid = Keeps-then _ _ (note-Keeps _ _) λ id.
      Keeps-then _ _
        (Keeps-on_remote P (
          open_pull_request-Keeps client to_lower P c target
            (pull_request_input db client hex to_lower sha256 message step now audit_now run_id
              execution_id execution review target branch)
            valid))
        (after_pull_request-Keeps branch commit)

  after_name-Keeps :
      (branch : Text) (commit : Commit) (verdict : BranchNameResult)
      → validate_branch_name to_lower branch review.branch ≡ verdict
      → Keeps (Remotely P) (
          after_name db client hex to_lower sha256 message step now audit_now run_id execution_id
            execution review target branch commit verdict)
  unfolding after_name
  after_name-Keeps branch commit valid_branch valid =
      Keeps-then _ _
        (Keeps-on_remote P
          (push_branch-Keeps client to_lower P c target branch review.branch valid commit.sha))
        λ stopped. after_push-Keeps branch commit stopped valid
  after_name-Keeps branch commit invalid_ref_name e = fail-Keeps _
  after_name-Keeps branch commit protected_branch e = fail-Keeps _

  after_build-Keeps :
      (built : Stop ⊎ Commit)
      → Keeps (Remotely P) (
          after_build db client hex to_lower sha256 message step now audit_now run_id execution_id
            execution review target built)
  unfolding after_build
  after_build-Keeps (inl stop) = fail-Keeps stop
  after_build-Keeps (inr commit) = after_name-Keeps _ commit _ refl

  after_files-Keeps :
      (files : PublishFailureCategory ⊎ List TreeFileEntry)
      → Keeps (Remotely P) (
          after_files db client hex to_lower sha256 message step now audit_now run_id execution_id
            execution review target files)
  unfolding after_files
  after_files-Keeps (inl category) = fail-Keeps _
  after_files-Keeps (inr files) =
      Keeps-then _ _
        (Keeps-on_remote P (build_commit-Keeps client to_lower P c target review.branch _ files))
        after_build-Keeps

  pub attempt-Keeps : Keeps (Remotely P) (
      attempt db client hex to_lower sha256 message step now audit_now run_id execution_id execution
        review target)
  unfolding attempt
  attempt-Keeps = Keeps-then _ _ (note-Keeps _ _) λ id.
      Keeps-then _ _
        (Keeps-on_remote P (
          collect_files-Keeps client to_lower P c target sha256 review.branch
            review.proposed_changes))
        after_files-Keeps
