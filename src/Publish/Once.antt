-- ===== src/Publish/Once.antt =====
-- Laws of createIfAbsent of src/github-publish/publish-repository.ts.
use aisdlc.Prelude.{◌≡◌, refl, arith, List, ℕ}
use aisdlc.Db.{Db, World, execution_id_unique}
use aisdlc.AuditLog.Laws.{append-frame}
use aisdlc.Access.Unique.{Distinct}
use aisdlc.Access.Audited.{insert_then-Distinct}
use aisdlc.Publish.Records.{GithubPublication}
use aisdlc.Publish.Publications.{
  RecordPublicationInput, record_publication, new_publication, of_execution, audit_publication,
  publication_entry, get_publications, put_publications, StoredPublication,
}

abbrev pub publications : (db : Db) → World db → List GithubPublication
publications db w = db.github_publications.docs w.github_publications

abbrev pub OnePublicationPerExecution : List GithubPublication → Type 0
OnePublicationPerExecution = Distinct execution_id_unique

eq_sym : (a b : GithubPublication) → execution_id_unique a b ≡ execution_id_unique b a
eq_sym a b = ground arith

module _ (db : Db) (now audit_now : ℕ) (input : RecordPublicationInput) where
  audit_publication-frame :
      (s : StoredPublication db) (v : World db)
      → publications db (audit_publication db audit_now input s v).1 ≡ publications db v
  unfolding audit_publication
  audit_publication-frame s v =
      let frame = append-frame db audit_now (publication_entry input s.doc.id) v in ground arith

  -- If no two publications share an execution, before the call and after the step of the other
  -- clients, then none do after a publication is recorded.
  pub record_publication-OnePublicationPerExecution :
      (step : World db → World db) (w : World db)
      → OnePublicationPerExecution (publications db w)
      → OnePublicationPerExecution (publications db (step w))
      → OnePublicationPerExecution
          (publications db (record_publication db step now audit_now input w).1)
  unfolding record_publication
  record_publication-OnePublicationPerExecution step w before after =
      insert_then-Distinct db.github_publications (get_publications db) (put_publications db)
        (λ s v. refl) (audit_publication db audit_now input) audit_publication-frame eq_sym
        (new_publication now input) (of_execution input.execution_id) step w before after
