-- ===== src/Tests/Rules.antt =====
-- The rules of the domain, the rows and the paths, at concrete inputs.
use secure_file_service.Tests.Memory.{digest}
use secure_file_service.Domain.MediaType.{normalize_content_type}
use secure_file_service.Domain.Filename.{sanitize_filename}
use secure_file_service.Storage.Local.Writing.{write-returns, write-Written, Undone, Written}
use secure_file_service.Exec.{Outcome}
use secure_file_service.Storage.{payload, chunk, Stream}
use secure_file_service.Storage.Local.{write, part_path, Disk, Faults}
use secure_file_service.Domain.MediaType.Laws.{normalize_content_type-IsMediaType, IsMediaType}
use secure_file_service.Domain.Filename.Laws.{sanitize_filename-IsSafeName, IsSafeName}
use secure_file_service.Prelude.Results.{ok}
use secure_file_service.Prelude.{none, refl, inr, arith, inl, ◌∷◌, [], false, codes, some, ◌≡◌}
use secure_file_service.Domain.Entities.{
  string, file_downloaded, FileRecord, AuditEvent, Datetime, StoredObject, deleted,
}

abbrev expires : Datetime
expires = 61500000

sanitize_filename-IsSafeName_example :
    IsSafeName (sanitize_filename (λ s. s) (some (codes "../a/../b\\..")))
sanitize_filename-IsSafeName_example =
    sanitize_filename-IsSafeName (λ s. s) (some (codes "../a/../b\\.."))

normalize_content_type-IsMediaType_example :
    IsMediaType (normalize_content_type (some (codes " Text/Plain; charset=utf-8 ")))
normalize_content_type-IsMediaType_example =
    normalize_content_type-IsMediaType (some (codes " Text/Plain; charset=utf-8 "))

abbrev no_faults : Faults
no_faults = record {
  opening = false;
  writing = λ i. false;
  syncing = false;
  making_directory = false;
  replacing = false;
  unlinking = false;
}

abbrev empty_disk : Disk
empty_disk = record { files = []; drawn = 0; faults = no_faults }

abbrev two_chunks : Stream
two_chunks = chunk (codes "ab") ∷ chunk (codes "c") ∷ []

write-Written_example :
    Outcome
      (λ o e.
        Written digest
          (codes "data" ∷ [])
          (part_path digest (λ i. codes "0af") (codes "data" ∷ []) (codes "0af"))
          10
          (payload two_chunks)
          []
          o
          e.files)
      (λ e.
        Undone no_faults
          (part_path digest (λ i. codes "0af") (codes "data" ∷ []) (codes "0af"))
          []
          e.files)
      (write digest (λ i. codes "0af") (codes "data" ∷ []) two_chunks 10 empty_disk)
write-Written_example =
    write-Written digest (λ i. codes "0af") (codes "data" ∷ []) two_chunks 10 empty_disk

write-returns_example :
    (o : StoredObject) × (e : Disk) × (write digest
        (λ i. codes "0af")
        (codes "data" ∷ [])
        two_chunks
        10
        empty_disk
      ≡ (ok o, e))
unfolding payload
write-returns_example =
    write-returns digest (λ i. codes "0af") (codes "data" ∷ []) two_chunks 10 empty_disk b'0' b'a'
      (codes "f") refl
      (
        inl (omega arith, omega arith),
        (inr (omega arith, omega arith), (inr (omega arith, omega arith), tt)),
      )
      (refl, (λ i. refl), refl, refl, refl) tt (omega arith) (omega arith)

abbrev event : AuditEvent
event = record {
  id = codes "e";
  file_id = codes "f";
  event_type = file_downloaded;
  created_at = 1;
  actor_id = none;
  link_id = some (codes "l");
  expires_at = none;
  request_id = none;
  client_ip = none;
  metadata = (codes "key_id", string (codes "k")) ∷ [];
}

abbrev file : FileRecord
file = record {
  id = codes "f";
  owner_id = codes "ann";
  original_filename = codes "a.txt";
  content_type = codes "text/plain";
  size_bytes = 3;
  sha256 = codes "abc";
  storage_key = codes "0";
  status = deleted;
  created_at = 0;
  updated_at = 5;
  idempotency_key = none;
  deleted_at = some 5;
}
