-- ===== src/Persistence/AuditRepository/Laws.antt =====
-- Adding an event and committing it leaves the files alone.
use secure_file_service.Persistence.Models.{audit_model}
use secure_file_service.Domain.Entities.{AuditEvent}
use secure_file_service.Persistence.Session.{SessionLaws, Session, View}
use secure_file_service.Prelude.{inl, arith, inr, ◌≡◌}
use secure_file_service.Persistence.AuditRepository.{add}
use secure_file_service.Exec.{run-cases, ◌>>◌}

-- A session whose view of the files is what was committed.
abbrev pub IsClean : View → Type 0
IsClean v = v.files ≡ v.durable_files

module _ {S : Type 0} (db : Session S) (laws : SessionLaws db) where
  pub add-commit-files :
      (event : AuditEvent) (s : S)
      → IsClean (laws.view s)
      → (laws.view ((add db event >> db.commit) s).1).durable_files ≡ (laws.view s).durable_files
  unfolding add
  add-commit-files event s clean = elim (run-cases (db.add_event (audit_model event) s)) [
    | inr (r, t, e) ↦ ground (arith, e, laws.add_event_law (audit_model event) s)
    | inl (u, t, e) ↦
        ground (arith, e, clean, laws.add_event_law (audit_model event) s, laws.commit_law t)
  ]
