-- ===== src/AuditLog/Laws.antt =====
-- What appending an entry does to the world.
use aisdlc.Prelude.{◌≡◌, arith, ℕ, ◌++◌, ◌∷◌, [], none, some, List, Bool, true, false}
use aisdlc.Effect.{ok, err}
use aisdlc.Errors.{Error, driver_error, duplicate_key_error, type_error}
use aisdlc.Db.{Db, World}
use aisdlc.AuditLog.{AuditEntryInput, append, require_non_empty}
use aisdlc.Store.{ObjectId, inserted}
use aisdlc.Documents.{AuditEntry}
use aisdlc.Text.{trim}

abbrev pub all_but_audit : {db : Db} → World db → World db → World db
all_but_audit w w' = record w { audit_log = w'.audit_log }

-- The entry that is stored, given its id.
abbrev pub stored : ℕ → AuditEntryInput → ObjectId → AuditEntry
stored now entry id = record {
  id = id;
  occurred_at = elim entry.occurred_at [ none ↦ now | some at ↦ at ];
  actor = trim entry.actor;
  action = trim entry.action;
  subject_type = entry.subject_type;
  subject_id = entry.subject_id;
  detail = entry.detail;
}

-- The entries of the log.
abbrev pub entries : (db : Db) → World db → List AuditEntry
entries db w = db.audit_log.docs w.audit_log

-- What append may throw: an error of the driver, or that of an empty actor or action.
abbrev pub is_append_error : Error → Bool
is_append_error driver_error = true
is_append_error duplicate_key_error = true
is_append_error (type_error field) = true
is_append_error _ = false

module _ (db : Db) (now : ℕ) (entry : AuditEntryInput) (w : World db) where
  -- Only the audit log changes.
  pub append-frame : (append db now entry w).1 ≡ all_but_audit w (append db now entry w).1
  unfolding append require_non_empty
  append-frame = ground arith

  -- A successful append adds exactly one entry, at the end, and changes nothing else.
  pub append-ok :
      {id : ObjectId} {w' : World db}
      → append db now entry w ≡ (ok id, w')
      → (entries db w' ≡ entries db w ++ stored now entry id ∷ []) × (w' ≡ all_but_audit w w')
  unfolding append require_non_empty
  append-ok {id} {w'} h =
      let inserts : db.audit_log.insert_one (stored now entry) w.audit_log
          ≡ inserted id w'.audit_log =
        ground arith in
      (
        (db.audit_log.insert_one-inserted (stored now entry) w.audit_log w'.audit_log id inserts).0,
        ground arith,
      )

  pub append-error :
      (e : Error) (w' : World db) → append db now entry w ≡ (err e, w') → is_append_error e ≡ true
  unfolding append require_non_empty
  append-error e w' h = ground arith

  pub append-err : {e : Error} {w' : World db} → append db now entry w ≡ (err e, w') → w' ≡ w
  unfolding append require_non_empty
  append-err h = ground arith
