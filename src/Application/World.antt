-- ===== src/Application/World.antt =====
-- What a handler holds: the session, the storage and the metrics. The metrics are the calls made on
-- the Prometheus counters, in order; logging is left out.
use secure_file_service.Prelude.{ℕ, List, [], ◌∷◌, ◌++◌}
use secure_file_service.Prelude.Results.{ok}
use secure_file_service.Exec.{Exec}
use secure_file_service.Domain.Errors.{Exception}
use secure_file_service.Persistence.Session.{Session}

-- The `reason` labels: the type of an exception, or a fixed text.
pub data Reason : Type 0 where
  exception_type : Exception → Reason
  idempotency_conflict persistence_error : Reason
  signature expired not_found unavailable storage_missing : Reason

pub data MetricCall : Type 0 where
  upload_failures : Reason → MetricCall
  files_uploaded : MetricCall
  upload_bytes : ℕ → MetricCall
  links_generated : MetricCall
  downloads : MetricCall
  download_failures : Reason → MetricCall
  files_deleted : MetricCall

pub record World (S F : Type 0) : Type 0 where
  pub session : S
  pub storage : F
  pub metrics : List MetricCall

module _ {S F : Type 0} where
  abbrev pub on_session : {A : Type 0} → Exec S A → Exec (World S F) A
  on_session m w = let (r, s) = m w.session in (r, record w { session = s })

  abbrev pub on_storage : {A : Type 0} → Exec F A → Exec (World S F) A
  on_storage m w = let (r, f) = m w.storage in (r, record w { storage = f })

  abbrev pub count : MetricCall → Exec (World S F) Unit
  count c w = (ok tt, record w { metrics = w.metrics ++ c ∷ [] })

  -- `session.rollback()`
  abbrev pub roll_back : Session S → Exec (World S F) Unit
  roll_back db w = (ok tt, record w { session = db.rollback w.session })
