-- ===== src/Intake/Total.antt =====
-- hashSnapshot of src/intake/repository.ts on the errors of canonicalize of src/intake/hash.ts.
use aisdlc.Prelude.{◌≡◌, refl, List, [], ◌∷◌, ◌++◌, All, Option, none, some, inl, inr, Bool-cases}
use aisdlc.Text.{Text, codes}
use aisdlc.Effect.{Result, ok}
use aisdlc.Json.{object, field, text, array, end, Fields}
use aisdlc.Documents.{IntakeSnapshot}
use aisdlc.Errors.{Error}
use aisdlc.Intake.Hash.{
  canonicalize, canonicalize_values, sorted_entries, content_hash, hash_snapshot, Rendered,
  insert_entry, render_entries, less, or_null, texts, sorted_labels, join,
}
use aisdlc.Intake.Canonical.{sorted_entries-place, place-cases}

abbrev IsOk : {A : Type 0} → Result Error A → Type 0
IsOk {A} r = (a : A) × (r ≡ ok a)

abbrev Clean : List (Text × Rendered) → Type 0
Clean es = All (λ e. IsOk e.1) es

insert_entry-Clean :
    (k : Text) (r : Rendered) (es : List (Text × Rendered))
    → IsOk r
    → Clean es
    → Clean (insert_entry k r es)
unfolding insert_entry
insert_entry-Clean k r [] h clean = (h, tt)
insert_entry-Clean k r ((j, s) ∷ es) h clean = elim (Bool-cases (less j k)) [
  | inl before ↦ rw before (clean.0, insert_entry-Clean k r es h clean.1)
  | inr after ↦ rw after (h, clean)
]

module _ (quote : Text → Text) where
  render_entries-IsOk : (es : List (Text × Rendered)) → Clean es → IsOk (render_entries quote es)
  unfolding render_entries
  render_entries-IsOk [] clean = ([], refl)
  render_entries-IsOk ((k, r) ∷ es) clean =
      let (inner, e) = clean.0 in
      let (rest, e') = render_entries-IsOk es clean.1 in
      ((quote k ++ codes ":" ++ inner) ∷ rest, rw (e, e') refl)

  -- Every field has a text.
  abbrev CleanFields : Fields → Type 0
  CleanFields end = Unit
  CleanFields (field k v fs) = IsOk (canonicalize quote v) × CleanFields fs

  sorted_entries-Clean : (fs : Fields) → CleanFields fs → Clean (sorted_entries quote fs)
  unfolding canonicalize
  sorted_entries-Clean end clean = tt
  sorted_entries-Clean (field k v fs) clean =
      let rest = sorted_entries-Clean fs clean.1 in
      elim (place-cases quote k v) [
        | inl drops ↦ rw (sorted_entries-place quote k v fs, drops (sorted_entries quote fs)) rest
        | inr puts ↦
            rw (sorted_entries-place quote k v fs, puts (sorted_entries quote fs))
              (insert_entry-Clean k (canonicalize quote v) (sorted_entries quote fs) clean.0 rest)
      ]

  object-IsOk : (fs : Fields) → CleanFields fs → IsOk (canonicalize quote (object fs))
  unfolding canonicalize
  object-IsOk fs clean =
      let (parts, e) =
        render_entries-IsOk (sorted_entries quote fs) (sorted_entries-Clean fs clean) in
      (codes "{" ++ join parts ++ codes "}", rw (canonicalize, e) refl)

  texts-IsOk :
      (sha256 : Text → Text) (ss : List Text)
      → IsOk (canonicalize_values quote (texts quote sha256 ss))
  unfolding canonicalize canonicalize_values
  texts-IsOk sha256 [] = ([], refl)
  texts-IsOk sha256 (s ∷ ss) = let (rest, e) = texts-IsOk sha256 ss in (quote s ∷ rest, rw e refl)

  array-IsOk :
      (sha256 : Text → Text) (ss : List Text)
      → IsOk (canonicalize quote (array (texts quote sha256 ss)))
  unfolding canonicalize
  array-IsOk sha256 ss =
      let (rest, e) = texts-IsOk sha256 ss in (codes "[" ++ join rest ++ codes "]", rw e refl)

  or_null-IsOk :
      (sha256 : Text → Text) (s : Option Text) → IsOk (canonicalize quote (or_null quote sha256 s))
  unfolding canonicalize
  or_null-IsOk sha256 none = (_, refl)
  or_null-IsOk sha256 (some s) = (_, refl)

  text-IsOk : (s : Text) → IsOk (canonicalize quote (text s))
  unfolding canonicalize
  text-IsOk s = (_, refl)

  content_hash-IsOk :
      (sha256 : Text → Text) (fs : Fields)
      → CleanFields fs
      → IsOk (content_hash quote sha256 (object fs))
  unfolding content_hash
  content_hash-IsOk sha256 fs clean =
      let (s, e) = object-IsOk fs clean in (sha256 s, rw (content_hash, e) refl)

  -- Hashing a snapshot never fails: none of the errors of canonicalize is thrown for any of its
  -- fields, whatever the texts, options and labels are.
  pub hash_snapshot-IsOk :
      (sha256 : Text → Text) (snapshot : IntakeSnapshot)
      → (hash : Text) × (hash_snapshot quote sha256 snapshot ≡ ok hash)
  unfolding hash_snapshot
  hash_snapshot-IsOk sha256 snapshot = content_hash-IsOk sha256 _ (
    text-IsOk snapshot.title,
    (
      text-IsOk snapshot.description,
      (
        text-IsOk snapshot.issue_type,
        (
          or_null-IsOk sha256 snapshot.priority,
          (
            or_null-IsOk sha256 snapshot.reporter,
            (
              or_null-IsOk sha256 snapshot.project,
              (
                array-IsOk sha256 (sorted_labels quote sha256 snapshot.labels),
                (or_null-IsOk sha256 snapshot.parent_key, tt),
              ),
            ),
          ),
        ),
      ),
    ),
  )
