-- ===== src/Publish/Confined.antt =====
-- What the attempt of src/github-publish/publish-service.ts does to GitHub: the rules by which a
-- property of the remote side goes through its parts.
use aisdlc.Prelude.{◌≡◌, Option, some, none, List, [], ◌∷◌, ◌⊎◌, ℕ, if◌then◌else◌}
use aisdlc.Effect.{Action}
use aisdlc.Effect.Keeps.{Keeps, Keeps-pure, Keeps-if, Keeps-then, Keeps-map}
use aisdlc.Errors.{Error}
use aisdlc.Text.{Text}
use aisdlc.Documents.{ProposedChange, ProposedChangeOperation}
use aisdlc.Coding.PathSafety.{PathSafetyResult, safe, unsafe, validate_path}
use aisdlc.GithubApp.Client.{
  Answer, answered, refused_with, Call, Repo, GithubAppClient, TreeFileEntry, PullRequestInput,
  PullRequestSummary,
}
use aisdlc.Publish.Records.{PublishFailureCategory}
use aisdlc.Publish.BranchName.{valid_branch, validate_branch_name}
use aisdlc.Site.{ask}
use aisdlc.Publish.Build.{
  check_change, check_safe_change, check_live, onto_files, go_on, collect_files, after_recheck,
  after_commit, after_tree, after_base_commit, after_base_ref, build_commit,
}
use aisdlc.Publish.Push.{
  points_at, found_pull_request, verify_push, reconcile_push, after_preflight, push_branch,
  reconcile_pull_request, open_pull_request,
}

pub record KeepsCall {R A : Type 0} (P : R → Type 0) (call : Call R A) : Type 0 where
  pub kept : (r : R) → P r → P (call r).1

-- Every call keeps `P`: the creation of a branch at least where its name is valid beside the base
-- branch, and that of a pull request at least where it is from such a branch into that base.
pub record IsConfined {R : Type 0} (client : GithubAppClient R) (to_lower : Text → Text)
    (P : R → Type 0) : Type 0 where
  pub token : (id : ℕ) → KeepsCall P (client.get_installation_token id)
  pub contents : (t : Repo) (path ref : Text) → KeepsCall P (client.get_file_contents t path ref)
  pub ref : (t : Repo) (branch : Text) → KeepsCall P (client.get_ref t branch)
  pub commit : (t : Repo) (sha : Text) → KeepsCall P (client.get_commit t sha)
  pub tree :
      (t : Repo) (base : Text) (files : List TreeFileEntry)
      → KeepsCall P (client.create_tree t base files)
  pub new_commit :
      (t : Repo) (message tree_sha : Text) (parents : List Text)
      → KeepsCall P (client.create_commit t message tree_sha parents)
  pub branch :
      (t : Repo) (name sha base : Text)
      → validate_branch_name to_lower name base ≡ valid_branch
      → KeepsCall P (client.create_branch t name sha)
  pub pull_request :
      (t : Repo) (input : PullRequestInput)
      → validate_branch_name to_lower input.head input.base ≡ valid_branch
      → KeepsCall P (client.create_pull_request t input)
  pub find_pull_request :
      (t : Repo) (head base : Text) → KeepsCall P (client.find_pull_request_for_branch t head base)

module _ {R : Type 0} {P : R → Type 0} where
  pub Keeps-ask : {A : Type 0} {call : Call R A} → KeepsCall P call → Keeps P (ask call)
  unfolding ask
  Keeps-ask k = record { at = k.kept }

module _ {R : Type 0} (client : GithubAppClient R) (to_lower : Text → Text) (P : R → Type 0)
    (c : IsConfined client to_lower P) (target : Repo) where
  module _ (sha256 : Text → Text) (branch : Text) where
    check_change-Keeps :
        (change : ProposedChange) (operation : ProposedChangeOperation)
        → Keeps P (check_change client sha256 target branch change operation)
    unfolding check_change
    check_change-Keeps change ProposedChangeOperation.create = Keeps-pure _
    check_change-Keeps change ProposedChangeOperation.modify =
        Keeps-map (check_live sha256 change) _
          (Keeps-ask (c.contents target change.file_path branch))

    check_safe_change-Keeps :
        (change : ProposedChange) (verdict : PathSafetyResult)
        → Keeps P (check_safe_change client sha256 target branch change verdict)
    unfolding check_safe_change
    check_safe_change-Keeps change (unsafe reason) = Keeps-pure _
    check_safe_change-Keeps change safe = check_change-Keeps change change.operation

    go_on-Keeps :
        (change : ProposedChange) (stopped : Option PublishFailureCategory)
        (rest : Action R Error (PublishFailureCategory ⊎ List TreeFileEntry))
        → Keeps P rest
        → Keeps P (go_on change stopped rest)
    go_on-Keeps change (some category) rest k = Keeps-pure _
    go_on-Keeps change none rest k =
        Keeps-map
          (onto_files (record { path = change.file_path; content = change.proposed_content })) _ k

    pub collect_files-Keeps :
        (changes : List ProposedChange)
        → Keeps P (collect_files client sha256 target branch changes)
    unfolding collect_files
    collect_files-Keeps [] = Keeps-pure _
    collect_files-Keeps (change ∷ changes) =
        Keeps-then _ _ (check_safe_change-Keeps change (validate_path change.file_path))
          λ stopped. go_on-Keeps change stopped _ (collect_files-Keeps changes)

  module _ (branch : Text) where
    after_commit-Keeps :
        (base_sha : Text) (answer : Answer Text)
        → Keeps P (after_commit client target branch base_sha answer)
    unfolding after_commit
    after_commit-Keeps base_sha (refused_with kind) = Keeps-pure _
    after_commit-Keeps base_sha (answered sha) =
        Keeps-map (after_recheck base_sha sha) _ (Keeps-ask (c.ref target branch))

    after_tree-Keeps :
        (message base_sha : Text) (answer : Answer Text)
        → Keeps P (after_tree client target branch message base_sha answer)
    unfolding after_tree
    after_tree-Keeps message base_sha (refused_with kind) = Keeps-pure _
    after_tree-Keeps message base_sha (answered tree_sha) =
        Keeps-then _ _ (Keeps-ask (c.new_commit target message tree_sha (base_sha ∷ [])))
          (after_commit-Keeps base_sha)

    after_base_commit-Keeps :
        (message base_sha : Text) (files : List TreeFileEntry) (answer : Answer Text)
        → Keeps P (after_base_commit client target branch message base_sha files answer)
    unfolding after_base_commit
    after_base_commit-Keeps message base_sha files (refused_with kind) = Keeps-pure _
    after_base_commit-Keeps message base_sha files (answered base_tree_sha) =
        Keeps-then _ _ (Keeps-ask (c.tree target base_tree_sha files))
          (after_tree-Keeps message base_sha)

    after_base_ref-Keeps :
        (message : Text) (files : List TreeFileEntry) (answer : Answer Text)
        → Keeps P (after_base_ref client target branch message files answer)
    unfolding after_base_ref
    after_base_ref-Keeps message files (refused_with kind) = Keeps-pure _
    after_base_ref-Keeps message files (answered base_sha) =
        Keeps-then _ _ (Keeps-ask (c.commit target base_sha))
          (after_base_commit-Keeps message base_sha files)

    pub build_commit-Keeps :
        (message : Text) (files : List TreeFileEntry)
        → Keeps P (build_commit client target branch message files)
    unfolding build_commit
    build_commit-Keeps message files =
        Keeps-then _ _ (Keeps-ask (c.ref target branch)) (after_base_ref-Keeps message files)

  module _ (branch base : Text)
      (valid : validate_branch_name to_lower branch base ≡ valid_branch) where
    verify_push-Keeps :
        (sha : Text) (stopped : Option PublishFailureCategory)
        → Keeps P (verify_push client target branch sha stopped)
    unfolding verify_push
    verify_push-Keeps sha (some category) = Keeps-pure _
    verify_push-Keeps sha none =
        Keeps-map
          (λ a.
            if points_at sha a then none else some PublishFailureCategory.push_verification_failed)
          _ (Keeps-ask (c.ref target branch))

    reconcile_push-Keeps :
        (sha : Text) (answer : Answer (Unit {0}))
        → Keeps P (reconcile_push client target branch sha answer)
    unfolding reconcile_push
    reconcile_push-Keeps sha (answered done) = Keeps-pure _
    reconcile_push-Keeps sha (refused_with kind) = Keeps-if _ _ _ (Keeps-pure _) (
        Keeps-map
          (λ a.
            if points_at sha a then none else some PublishFailureCategory.branch_creation_failed)
          _ (Keeps-ask (c.ref target branch)))

    after_preflight-Keeps :
        (sha : Text) (answer : Answer Text)
        → Keeps P (after_preflight client target branch sha answer)
    unfolding after_preflight
    after_preflight-Keeps sha (answered other) = Keeps-pure _
    after_preflight-Keeps sha (refused_with kind) =
        Keeps-then _ _ (Keeps-ask (c.branch target branch sha base valid))
          λ created. Keeps-then _ _ (reconcile_push-Keeps sha created) (verify_push-Keeps sha)

    pub push_branch-Keeps : (sha : Text) → Keeps P (push_branch client target branch sha)
    unfolding push_branch
    push_branch-Keeps sha =
        Keeps-then _ _ (Keeps-ask (c.ref target branch)) (after_preflight-Keeps sha)

  module _ (input : PullRequestInput)
      (valid : validate_branch_name to_lower input.head input.base ≡ valid_branch) where
    reconcile-Keeps :
        (answer : Answer PullRequestSummary)
        → Keeps P (reconcile_pull_request client target input answer)
    unfolding reconcile_pull_request
    reconcile-Keeps (answered pr) = Keeps-pure _
    reconcile-Keeps (refused_with kind) =
        Keeps-map found_pull_request _
          (Keeps-ask (c.find_pull_request target input.head input.base))

    pub open_pull_request-Keeps : Keeps P (open_pull_request client target input)
    unfolding open_pull_request
    open_pull_request-Keeps =
        Keeps-then _ _ (Keeps-ask (c.pull_request target input valid)) reconcile-Keeps
