-- ===== src/Tests/Uploads.antt =====
-- Uploads at concrete inputs.
use secure_file_service.Tests.Memory.{digest}
use secure_file_service.Application.Upload.Replay.{execute-Replayed, IsEarlier}
use secure_file_service.Persistence.FileRepository
use secure_file_service.Application.Upload.Branches.{execute_leaves_orphan}
use secure_file_service.Persistence.FileRepository.{has_owner_and_key, optional_entity}
use secure_file_service.Storage.{payload, chunk}
use secure_file_service.Domain.Errors.{Exception, operational_error}
use secure_file_service.Prelude.Decimal.{decimal}
use secure_file_service.Prelude.Results.{Result, err, ok}
use secure_file_service.Tests.Memory.{object_laws, memory_laws, Objects, objects, memory}
use secure_file_service.Persistence.Models.{file_status, file_entity, file_model}
use secure_file_service.Application.World.{World}
use secure_file_service.Persistence.Session.{Session, View}
use secure_file_service.Domain.Entities.{
  status_value, available, FileRecord, StoredObject, RequestContext,
}
use secure_file_service.Persistence.FileRepository
use secure_file_service.Prelude.{text_eq, true, length, refl, ◌∷◌, some, codes, [], none, ◌≡◌}
use secure_file_service.Application.Upload.{
  UploadFileResult, replay, proceed, UploadDraws, UploadFileCommand, execute, find_existing,
}

abbrev no_context : RequestContext
no_context = record { request_id = none; client_ip = none }

abbrev empty_view : View
empty_view = record {
  files = [];
  events = [];
  staged = [];
  durable_files = [];
  durable_events = [];
}

abbrev empty_world : World View Objects
empty_world = record {
  session = empty_view;
  storage = record { drawn = 0; object = λ k. none };
  metrics = [];
}

abbrev command : UploadFileCommand
command = record {
  owner_id = codes "ann";
  filename = some (codes "a.txt");
  content_type = none;
  stream = chunk (codes "ab") ∷ chunk (codes "c") ∷ [];
  idempotency_key = some (codes "once");
  context = no_context;
}

abbrev draws : UploadDraws
draws = record { now = 5000000; file_id = codes "f1"; event_id = codes "e1"; nfc = λ s. s }

-- The stored object of the command, and the storage behind it.
abbrev stored : StoredObject
stored = record { storage_key = codes "0"; size_bytes = 3; sha256 = codes "abc" }

abbrev earlier : FileRecord
earlier = record {
  id = codes "f0";
  owner_id = codes "ann";
  original_filename = codes "a.txt";
  content_type = codes "text/plain";
  size_bytes = 3;
  sha256 = codes "abc";
  storage_key = codes "9";
  status = available;
  created_at = 0;
  updated_at = 0;
  idempotency_key = some (codes "once");
  deleted_at = none;
}

abbrev used_world : World View Objects
used_world = record empty_world { session = record empty_view { files = file_model earlier ∷ [] } }

abbrev after_write : Objects
after_write = (objects.write command.stream 10 empty_world.storage).1

writes : objects.write command.stream 10 empty_world.storage ≡ (ok stored, after_write)
unfolding objects payload decimal
writes = refl

abbrev replay_run : Result Exception UploadFileResult × World View Objects
replay_run = execute memory objects 10 command draws used_world

replay_runs : replay_run ≡ (ok (record { file = earlier; replayed = true }), replay_run.1)
unfolding execute proceed find_existing replay FileRepository.find_by_idempotency_key memory objects
    file_model file_entity file_status optional_entity status_value text_eq payload decimal
replay_runs = refl

execute-Replayed_example :
    IsEarlier memory memory_laws objects command.owner_id command.idempotency_key earlier
      (memory_laws.view replay_run.1.session)
    × (earlier.size_bytes ≡ length (payload command.stream))
    × (earlier.sha256 ≡ digest (payload command.stream))
execute-Replayed_example =
    execute-Replayed memory memory_laws objects object_laws 10 command draws used_world replay_run.1
      (record { file = earlier; replayed = true }) replay_runs refl

-- A database that cannot be reached.
abbrev unreachable : Session View
unreachable = record memory { first_file = λ p v. (err operational_error, v) }

execute_leaves_orphan_example :
    ((execute unreachable objects 10 command draws empty_world).0 ≡ err operational_error)
    × (object_laws.stored
          (execute unreachable objects 10 command draws empty_world).1.storage
          stored.storage_key
        ≡ some (payload command.stream))
unfolding find_existing FileRepository.find_by_idempotency_key
execute_leaves_orphan_example =
    execute_leaves_orphan unreachable objects 10 command draws empty_world writes object_laws
      operational_error refl
