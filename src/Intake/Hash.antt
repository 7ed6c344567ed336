-- ===== src/Intake/Hash.antt =====
-- src/intake/hash.ts, and hashSnapshot of src/intake/repository.ts. The digest (createHash of
-- node:crypto) and the quoting of a string (JSON.stringify) are parameters.
use aisdlc.Prelude.{
  Bool, true, false, ◌&&◌, ◌||◌, List, [], ◌∷◌, ◌++◌, ltb, ◌==◌, if◌then◌else◌, Option, some, none,
}
use aisdlc.Text.{Text, codes}
use aisdlc.Effect.{Result, ok, err}
use aisdlc.Json.{
  Value, Values, null, nil, object, cons, field, text, array, bool, end, finite, opaque, Fields,
  undefined, non_finite, date, bigint,
}
use aisdlc.Documents.{IntakeSnapshot}
use aisdlc.Errors.{Error, type_error, range_error}

-- `a < b` on strings: by code units.
unfoldable pub less : Text → Text → Bool
less [] [] = false
less [] (b ∷ t) = true
less (a ∷ s) [] = false
less (a ∷ s) (b ∷ t) = ltb a b || (a == b && less s t)

-- `Array.prototype.sort` on strings, as a stable insertion sort.
unfoldable pub insert_text : Text → List Text → List Text
unfolding less
insert_text a [] = a ∷ []
insert_text a (b ∷ bs) = if less b a then b ∷ insert_text a bs else a ∷ b ∷ bs

unfoldable pub sort : List Text → List Text
unfolding insert_text
sort [] = []
sort (a ∷ rest) = insert_text a (sort rest)

-- The same on the entries of an object, by the key.
unfoldable pub insert_entry {ℓ} : {V : Type ℓ} → Text → V → List (Text × V) → List (Text × V)
unfolding less
insert_entry k v [] = (k, v) ∷ []
insert_entry k v ((j, w) ∷ es) =
    if less j k then (j, w) ∷ insert_entry k v es else (k, v) ∷ (j, w) ∷ es

-- `parts.join(',')`.
unfoldable pub join : List Text → Text
join [] = []
join (s ∷ []) = s
join (s ∷ t ∷ ts) = s ++ codes "," ++ join (t ∷ ts)

abbrev pub Rendered : Type 0
Rendered = Result Error Text

abbrev pub bracket : Text → Text → Result Error (List Text) → Rendered
bracket l r (ok parts) = ok (l ++ join parts ++ r)
bracket l r (err e) = err e

abbrev pub prepend : Rendered → Result Error (List Text) → Result Error (List Text)
prepend (ok s) (ok ss) = ok (s ∷ ss)
prepend (ok s) (err e) = err e
prepend (err e) rest = err e

module _ (quote : Text → Text) where
  abbrev entry_text : Text → Rendered → Rendered
  entry_text key (ok inner) = ok (quote key ++ codes ":" ++ inner)
  entry_text key (err e) = err e

  -- The entries are rendered in the order of the sorted keys, and the first error is thrown.
  unfoldable pub render_entries : List (Text × Rendered) → Result Error (List Text)
  render_entries [] = ok []
  render_entries ((key, inner) ∷ es) = prepend (entry_text key inner) (render_entries es)

  unfoldable mutual
    unfolding insert_entry

    pub canonicalize : Value → Rendered
    canonicalize null = ok (codes "null")
    canonicalize undefined = ok (codes "null")
    canonicalize (date (some iso)) = ok (quote iso)
    canonicalize (date none) = err (range_error (codes "Invalid time value"))
    canonicalize (text s) = ok (quote s)
    canonicalize (bool true) = ok (codes "true")
    canonicalize (bool false) = ok (codes "false")
    canonicalize (finite t) = ok t
    canonicalize non_finite = err (type_error (codes "cannot canonicalize a non-finite number"))
    canonicalize (bigint digits) = ok (quote digits)
    canonicalize (opaque type) =
        err (type_error (codes "cannot canonicalize a value of type " ++ type))
    canonicalize (array vs) = bracket (codes "[") (codes "]") (canonicalize_values vs)
    canonicalize (object fs) = bracket (codes "{") (codes "}") (render_entries (sorted_entries fs))

    pub canonicalize_values : Values → Result Error (List Text)
    canonicalize_values nil = ok []
    canonicalize_values (cons v vs) = prepend (canonicalize v) (canonicalize_values vs)

    -- The entries, without those that are `undefined`, sorted by key.
    pub sorted_entries : Fields → List (Text × Rendered)
    sorted_entries end = []
    sorted_entries (field k undefined fs) = sorted_entries fs
    sorted_entries (field k v fs) = insert_entry k (canonicalize v) (sorted_entries fs)

  module _ (sha256 : Text → Text) where
    unfoldable pub content_hash : Value → Rendered
    content_hash value = elim (canonicalize value) [ ok s ↦ ok (sha256 s) | err e ↦ err e ]

    abbrev pub or_null : Option Text → Value
    or_null none = null
    or_null (some s) = text s

    abbrev pub texts : List Text → Values
    texts [] = nil
    texts (s ∷ ss) = cons (text s) (texts ss)

    abbrev pub sorted_labels : Option (List Text) → List Text
    sorted_labels none = []
    sorted_labels (some labels) = sort labels

    unfoldable pub hash_snapshot : IntakeSnapshot → Rendered
    unfolding content_hash sort
    hash_snapshot snapshot = content_hash (
        object (
          field (codes "title") (text snapshot.title) (
            field (codes "description") (text snapshot.description) (
              field (codes "issueType") (text snapshot.issue_type) (
                field (codes "priority") (or_null snapshot.priority) (
                  field (codes "reporter") (or_null snapshot.reporter) (
                    field (codes "project") (or_null snapshot.project) (
                      field (codes "labels") (array (texts (sorted_labels snapshot.labels)))
                        (field (codes "parentKey") (or_null snapshot.parent_key) end)))))))))
