-- ===== src/AuditLog.antt =====
-- src/db/audit-log.ts: the append-only log. `append` trims and requires the actor and the action,
-- and inserts one entry; the only other operation reads.
pub mod Laws
use aisdlc.Prelude.{List, ℕ, Option, some, none, if◌then◌else◌}
use aisdlc.Text.{Text, codes, trim, is_empty}
use aisdlc.Store.{ObjectId, inserted, duplicate_key, refused}
use aisdlc.Collections.{AuditSubjectType}
use aisdlc.Documents.{AuditEntry, Datum}
use aisdlc.Effect.{ok, err, Action, ◌>>=◌, pure, throw}
use aisdlc.Db.{Db}
use aisdlc.Errors.{Error, driver_error, duplicate_key_error, type_error, Do}

pub record AuditEntryInput : Type 0 where
  pub actor : Text
  pub action : Text
  pub subject_type : AuditSubjectType
  pub subject_id : ObjectId
  pub detail : Option (List (Text × Datum))
  pub occurred_at : Option ℕ

unfoldable pub require_non_empty : {W : Type 0} → Text → Text → Action W Error Text
require_non_empty value field =
    let trimmed = trim value in if is_empty trimmed then throw (type_error field) else pure trimmed

module _ (db : Db) where
  insert_entry : (ObjectId → AuditEntry) → Do db ObjectId
  insert_entry mk w = elim (db.audit_log.insert_one mk w.audit_log) [
    | inserted id s ↦ (ok id, record w { audit_log = s })
    | duplicate_key ↦ (err duplicate_key_error, w)
    | refused ↦ (err driver_error, w)
  ]

  -- `now` is the clock's time at the call.
  unfoldable pub append : ℕ → AuditEntryInput → Do db ObjectId
  unfolding insert_entry
  append now entry = do
    actor ← require_non_empty entry.actor (codes "actor")
    action ← require_non_empty entry.action (codes "action")
    insert_entry λ id. record {
      id = id;
      occurred_at = elim entry.occurred_at [ none ↦ now | some at ↦ at ];
      actor = actor;
      action = action;
      subject_type = entry.subject_type;
      subject_id = entry.subject_id;
      detail = entry.detail;
    }
