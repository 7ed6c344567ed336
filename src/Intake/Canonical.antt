-- ===== src/Intake/Canonical.antt =====
-- Orders that src/intake/hash.ts and hashSnapshot of src/intake/repository.ts sort away: that of the
-- fields of an object, and that of the labels.
use mathlib.Core.List.{Permᴰ}
use aisdlc.Prelude.{◌≡◌, refl, ap, ◌∙◌, sym, List, ◌≢◌, some, ◌⊎◌, inl, inr}
use aisdlc.Text.{Text}
use aisdlc.Json.{
  Value, null, object, field, text, array, bool, finite, opaque, Fields, undefined, non_finite,
  date, bigint,
}
use aisdlc.Documents.{IntakeSnapshot}
use aisdlc.Intake.Hash.{
  sort, canonicalize, sorted_entries, content_hash, hash_snapshot, Rendered, insert_entry,
}
use aisdlc.Intake.Order.{insert_text_comm, insert_entry_comm}

-- The same fields in another order, where no key stands twice.
pub data Reordered : Fields → Fields → Type 0 where
  same_fields : (fs : Fields) → Reordered fs fs
  below :
      (k : Text) (v : Value) {fs gs : Fields}
      → Reordered fs gs
      → Reordered (field k v fs) (field k v gs)
  swapped :
      (k j : Text) (v u : Value) (fs : Fields)
      → k ≢ j
      → Reordered (field k v (field j u fs)) (field j u (field k v fs))
  then : {fs gs hs : Fields} → Reordered fs gs → Reordered gs hs → Reordered fs hs

sort-Perm : {xs ys : List Text} → Permᴰ xs ys → sort xs ≡ sort ys
unfolding sort
sort-Perm Permᴰ.nil = refl
sort-Perm (Permᴰ.cons e p) = cc (sort-Perm p)
sort-Perm (Permᴰ.swap {a} {b} {l} e e') = cc (insert_text_comm a b (sort l))
sort-Perm (Permᴰ.trans p q) = sort-Perm p ∙ sort-Perm q

module _ (quote : Text → Text) where
  -- One field of an object, put in its place.
  unfoldable pub place : Text → Value → List (Text × Rendered) → List (Text × Rendered)
  unfolding canonicalize insert_entry
  place k undefined es = es
  place k v es = insert_entry k (canonicalize quote v) es

  pub sorted_entries-place :
      (k : Text) (v : Value) (fs : Fields)
      → sorted_entries quote (field k v fs) ≡ place k v (sorted_entries quote fs)
  unfolding canonicalize place
  sorted_entries-place k null fs = refl
  sorted_entries-place k undefined fs = refl
  sorted_entries-place k (text s) fs = refl
  sorted_entries-place k (bool b) fs = refl
  sorted_entries-place k (finite t) fs = refl
  sorted_entries-place k non_finite fs = refl
  sorted_entries-place k (date d) fs = refl
  sorted_entries-place k (bigint n) fs = refl
  sorted_entries-place k (opaque t) fs = refl
  sorted_entries-place k (array vs) fs = refl
  sorted_entries-place k (object gs) fs = refl

  pub place-cases :
      (k : Text) (v : Value)
      → ((es : List (Text × Rendered)) → place k v es ≡ es)
        ⊎ ((es : List (Text × Rendered)) → place k v es ≡ insert_entry k (canonicalize quote v) es)
  unfolding place
  place-cases k null = inr (λ es. refl)
  place-cases k undefined = inl (λ es. refl)
  place-cases k (text s) = inr (λ es. refl)
  place-cases k (bool b) = inr (λ es. refl)
  place-cases k (finite t) = inr (λ es. refl)
  place-cases k non_finite = inr (λ es. refl)
  place-cases k (date d) = inr (λ es. refl)
  place-cases k (bigint n) = inr (λ es. refl)
  place-cases k (opaque t) = inr (λ es. refl)
  place-cases k (array vs) = inr (λ es. refl)
  place-cases k (object gs) = inr (λ es. refl)

  place_comm :
      (k j : Text) (v u : Value) (es : List (Text × Rendered))
      → k ≢ j
      → place k v (place j u es) ≡ place j u (place k v es)
  place_comm k j v u es differ = elim (place-cases k v) [
    | inl drops ↦ drops _ ∙ ap (place j u) (sym (drops es))
    | inr puts ↦ elim (place-cases j u) [
      | inl drops ↦ ap (place k v) (drops es) ∙ sym (drops _)
      | inr puts' ↦
          puts _
          ∙ ap (insert_entry k (canonicalize quote v)) (puts' es)
          ∙ insert_entry_comm k j _ _ es differ
          ∙ ap (insert_entry j (canonicalize quote u)) (sym (puts es))
          ∙ sym (puts' _)
    ]
  ]

  sorted_entries-Reordered :
      {fs gs : Fields} → Reordered fs gs → sorted_entries quote fs ≡ sorted_entries quote gs
  sorted_entries-Reordered (same_fields fs) = refl
  sorted_entries-Reordered (below k v {fs} {gs} r) =
      sorted_entries-place k v fs
      ∙ ap (place k v) (sorted_entries-Reordered r)
      ∙ sym (sorted_entries-place k v gs)
  sorted_entries-Reordered (swapped k j v u fs differ) =
      sorted_entries-place k v (field j u fs)
      ∙ ap (place k v) (sorted_entries-place j u fs)
      ∙ place_comm k j v u (sorted_entries quote fs) differ
      ∙ sym (ap (place j u) (sorted_entries-place k v fs))
      ∙ sym (sorted_entries-place j u (field k v fs))
  sorted_entries-Reordered (then r r') = sorted_entries-Reordered r ∙ sorted_entries-Reordered r'

  -- The content hash of an object, and the error where there is none, are the same for every
  -- order of its fields that is reached by exchanging neighbours with different keys.
  pub content_hash-Reordered :
      (sha256 : Text → Text) (fs gs : Fields)
      → Reordered fs gs
      → content_hash quote sha256 (object fs) ≡ content_hash quote sha256 (object gs)
  unfolding content_hash canonicalize
  content_hash-Reordered sha256 fs gs r =
      rw (content_hash, canonicalize, sorted_entries-Reordered r) refl

  -- The hash of a snapshot is the same for every order of its labels.
  pub hash_snapshot-Perm :
      (sha256 : Text → Text) (snapshot : IntakeSnapshot) (labels labels' : List Text)
      → Permᴰ labels labels'
      → hash_snapshot quote sha256 (record snapshot { labels = some labels })
        ≡ hash_snapshot quote sha256 (record snapshot { labels = some labels' })
  unfolding hash_snapshot
  hash_snapshot-Perm sha256 snapshot labels labels' p = rw (sort-Perm p) refl
