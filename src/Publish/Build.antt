-- ===== src/Publish/Build.antt =====
-- attempt of src/github-publish/publish-service.ts, its first part: the files and the commit. Nothing
-- points at the commit yet. `sha256` is that of hashFileContent.
use aisdlc.Prelude.{◌⊎◌, inl, inr, Option, List, some, none, [], ◌∷◌, if◌then◌else◌}
use aisdlc.Effect.{Action, ◌>>=◌, pure}
use aisdlc.Text.{Text, same}
use aisdlc.Documents.{ProposedChange, ProposedChangeOperation}
use aisdlc.Errors.{Error}
use aisdlc.Coding.PathSafety.{
  PathSafetyFailureReason, PathSafetyResult, safe, unsafe, validate_path,
}
use aisdlc.Coding.Changes.{hash_file_content}
use aisdlc.GithubApp.Client.{Answer, answered, refused_with, Repo, GithubAppClient, TreeFileEntry}
use aisdlc.GithubApp.Access.{same_option}
use aisdlc.Publish.Records.{PublishFailureCategory}
use aisdlc.Site.{ask}

-- The category of a path that is not safe.
unfoldable pub path_category : PathSafetyFailureReason → PublishFailureCategory
path_category PathSafetyFailureReason.credential_or_secret_file =
    PublishFailureCategory.unauthorized_file
path_category PathSafetyFailureReason.unauthorized_configuration_file =
    PublishFailureCategory.unauthorized_file
path_category _ = PublishFailureCategory.invalid_path

-- What was known where the attempt stopped.
pub record Stop : Type 0 where
  pub category : PublishFailureCategory
  pub branch : Text
  pub base_sha : Option Text
  pub commit_sha : Option Text

pub record Commit : Type 0 where
  pub base_sha : Text
  pub sha : Text

abbrev pub onto_files :
    TreeFileEntry
    → PublishFailureCategory ⊎ List TreeFileEntry
    → PublishFailureCategory ⊎ List TreeFileEntry
onto_files file (inl category) = inl category
onto_files file (inr files) = inr (file ∷ files)

abbrev pub before_branch : PublishFailureCategory → Option Text → Option Text → Stop
before_branch category base_sha commit_sha = record {
  category = category;
  branch = [];
  base_sha = base_sha;
  commit_sha = commit_sha;
}

unfoldable pub after_recheck : (base_sha sha : Text) → Answer Text → Stop ⊎ Commit
unfolding same
after_recheck base_sha sha (refused_with kind) =
    inl (before_branch PublishFailureCategory.base_branch_missing (some base_sha) (some sha))
after_recheck base_sha sha (answered now_sha) =
    if same now_sha base_sha
    then inr (record { base_sha = base_sha; sha = sha })
    else inl (before_branch PublishFailureCategory.base_branch_changed (some base_sha) (some sha))

-- The next change, where this one may go into the tree.
abbrev pub go_on :
    {R : Type 0}
    → ProposedChange
    → Option PublishFailureCategory
    → Action R Error (PublishFailureCategory ⊎ List TreeFileEntry)
    → Action R Error (PublishFailureCategory ⊎ List TreeFileEntry)
go_on change (some category) rest = pure (inl category)
go_on change none rest = do
  files ← rest
  pure (onto_files (record { path = change.file_path; content = change.proposed_content }) files)

-- The live content of a file that is modified has still the hash of the proposal.
unfoldable pub check_live :
    (Text → Text) → ProposedChange → Answer Text → Option PublishFailureCategory
unfolding hash_file_content same_option
check_live sha256 change (refused_with kind) = some PublishFailureCategory.stale_file
check_live sha256 change (answered content) =
    if same_option (hash_file_content sha256 content) change.original_content_hash
    then none
    else some PublishFailureCategory.stale_file

module _ {R : Type 0} (client : GithubAppClient R) (sha256 : Text → Text) (target : Repo) where
  unfoldable pub check_change :
      (branch : Text)
      → ProposedChange
      → ProposedChangeOperation
      → Action R Error (Option PublishFailureCategory)
  unfolding check_live ask
  check_change branch change ProposedChangeOperation.create = pure none
  check_change branch change ProposedChangeOperation.modify = do
    live ← ask (client.get_file_contents target change.file_path branch)
    pure (check_live sha256 change live)

  unfoldable pub check_safe_change :
      (branch : Text)
      → ProposedChange
      → PathSafetyResult
      → Action R Error (Option PublishFailureCategory)
  unfolding check_change path_category
  check_safe_change branch change (unsafe reason) = pure (some (path_category reason))
  check_safe_change branch change safe = check_change branch change change.operation

  -- The loop over the proposed changes.
  unfoldable pub collect_files :
      (branch : Text)
      → List ProposedChange
      → Action R Error (PublishFailureCategory ⊎ List TreeFileEntry)
  unfolding check_safe_change
  collect_files branch [] = pure (inr [])
  collect_files branch (change ∷ changes) =
      check_safe_change branch change (validate_path change.file_path) >>= λ stopped.
      go_on change stopped (collect_files branch changes)

module _ {R : Type 0} (client : GithubAppClient R) (target : Repo) where
  unfoldable pub after_commit :
      (branch base_sha : Text) → Answer Text → Action R Error (Stop ⊎ Commit)
  unfolding after_recheck ask
  after_commit branch base_sha (refused_with kind) =
      pure (inl (before_branch PublishFailureCategory.commit_creation_failed (some base_sha) none))
  after_commit branch base_sha (answered sha) = do
    rechecked ← ask (client.get_ref target branch)
    pure (after_recheck base_sha sha rechecked)

  unfoldable pub after_tree :
      (branch message base_sha : Text) → Answer Text → Action R Error (Stop ⊎ Commit)
  unfolding after_commit ask
  after_tree branch message base_sha (refused_with kind) =
      pure (inl (before_branch PublishFailureCategory.tree_creation_failed (some base_sha) none))
  after_tree branch message base_sha (answered tree_sha) = do
    commit ← ask (client.create_commit target message tree_sha (base_sha ∷ []))
    after_commit branch base_sha commit

  unfoldable pub after_base_commit :
      (branch message base_sha : Text)
      → List TreeFileEntry
      → Answer Text
      → Action R Error (Stop ⊎ Commit)
  unfolding after_tree ask
  after_base_commit branch message base_sha files (refused_with kind) =
      pure (inl (before_branch PublishFailureCategory.tree_creation_failed (some base_sha) none))
  after_base_commit branch message base_sha files (answered base_tree_sha) = do
    tree ← ask (client.create_tree target base_tree_sha files)
    after_tree branch message base_sha tree

  unfoldable pub after_base_ref :
      (branch message : Text) → List TreeFileEntry → Answer Text → Action R Error (Stop ⊎ Commit)
  unfolding after_base_commit ask
  after_base_ref branch message files (refused_with kind) =
      pure (inl (before_branch PublishFailureCategory.base_branch_missing none none))
  after_base_ref branch message files (answered base_sha) = do
    base_commit ← ask (client.get_commit target base_sha)
    after_base_commit branch message base_sha files base_commit

  -- The commit on top of the base branch, which nothing points at yet.
  unfoldable pub build_commit :
      (branch message : Text) → List TreeFileEntry → Action R Error (Stop ⊎ Commit)
  unfolding after_base_ref ask
  build_commit branch message files = do
    base_ref ← ask (client.get_ref target branch)
    after_base_ref branch message files base_ref
