-- ===== src/Persistence/AuditRepository.antt =====
-- `SqlAlchemyAuditRepository` of app/infrastructure/repositories/audit_repository.py.
pub mod Laws
use secure_file_service.Prelude.{ℕ, Text, text_eq, Bool, List, [], ◌∷◌}
use secure_file_service.Prelude.Results.{Result, ok, err}
use secure_file_service.Exec.{Exec, pure, lift, ◌>>=◌}
use secure_file_service.Domain.Errors.{Exception}
use secure_file_service.Domain.Entities.{AuditEvent}
use secure_file_service.Persistence.Models.{AuditEventModel, audit_entity, audit_model}
use secure_file_service.Persistence.Session.{Session}

abbrev pub of_file : Text → AuditEventModel → Bool
of_file file_id m = text_eq m.file_id file_id

unfoldable pub event_entities : List AuditEventModel → Result Exception (List AuditEvent)
event_entities [] = ok []
event_entities (m ∷ ms) = elim (audit_entity m) [
  | err e ↦ err e
  | ok event ↦ elim (event_entities ms) [ err e ↦ err e | ok events ↦ ok (event ∷ events) ]
]

module _ {S : Type 0} (db : Session S) where
  unfoldable pub add : AuditEvent → Exec S Unit
  add event = db.add_event (audit_model event)

  unfoldable pub list_for_file : Text → ℕ → ℕ → Exec S (List AuditEvent × ℕ)
  list_for_file file_id limit offset = do
    total ← db.count_events (of_file file_id)
    rows ← db.page_events (of_file file_id) limit offset
    events ← lift (event_entities rows)
    pure (events, total)
