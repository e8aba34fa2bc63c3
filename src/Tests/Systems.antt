-- ===== src/Tests/Systems.antt =====
-- Requests one after the other, from an empty database and an empty storage, and the local storage.
use secure_file_service.Exec.{Outcome}
use secure_file_service.Storage.{payload}
use secure_file_service.Storage.Local.{Disk, local_storage}
use secure_file_service.Storage.Local.Refinement.{stored_at, local_storage-Implements, IsUuidHex}
use secure_file_service.Persistence.Session.{View}
use secure_file_service.Storage.{chunk, StorageLaws}
use secure_file_service.System.{with_session, upload, after, download}
use secure_file_service.System.Invariant.{IsConsistent, DrawsFresh, IsSound}
use secure_file_service.Application.World.{World}
use secure_file_service.Security.Signer.{UrlSigner}
use secure_file_service.Domain.Entities.{RequestContext}
use secure_file_service.Storage.Paths.{path_for}
use secure_file_service.Prelude.Results.{ok}
use secure_file_service.Prelude.{refl, arith, ◌≡◌, [], Text, ◌++◌, some, ◌∷◌, ℕ, codes, none}
use secure_file_service.Application.Upload
use secure_file_service.Domain.Filename
use secure_file_service.Domain.Filename.{sanitize_filename}
use secure_file_service.Domain.MediaType.{
  normalize_content_type, matches_content_type, is_line, is_parameters, is_token, matches_subtype,
}
use secure_file_service.Prelude.{strip, strip_start, strip_end, is_space, split_last, text_eq}
use secure_file_service.Application.Download.{
  check_signature, check_expiry, find_file, check_stored, deliver,
}
use secure_file_service.Persistence.FileRepository
use secure_file_service.Persistence.AuditRepository
use secure_file_service.Persistence.Models.{file_entity, file_status, file_model}
use secure_file_service.Domain.Entities.{status_value}
use secure_file_service.Persistence.FileRepository.{optional_entity}
use secure_file_service.Security.Signer.{verify, message, message_text, expected_signature, b64url}
use secure_file_service.Prelude.Utf8.{utf8, utf8_replace, encode_char}
use secure_file_service.Prelude.Decimal.{decimal}
use secure_file_service.Prelude.Dict.{lookup}
use secure_file_service.Domain.Ttl.{is_expired}
use secure_file_service.Tests.Memory.{
  toy_b64, toy_hmac, objects, object_laws, memory, Objects, memory_laws, digest,
}
use secure_file_service.Application.Upload.{UploadFileCommand, UploadDraws}
use secure_file_service.Application.CreateLink.{LinkSettings}
use secure_file_service.Application.Download.{SignedRequest, DownloadDraws, resolve}
use secure_file_service.System.Soundness.{IsDecided, Reach, here, next}
use secure_file_service.System.Counting.{NoMissing}
use secure_file_service.System.Delivery.{IsIntact, Reach-IsConsistent}

abbrev context : RequestContext
context = record { request_id = none; client_ip = none }

abbrev settings : LinkSettings
settings = record { public_base_url = codes "http://x"; default_ttl = 5; max_ttl = 9 }

abbrev signer : UrlSigner
signer = record { keys = (codes "k", codes "s") ∷ []; active = codes "k" }

abbrev empty : World View Objects
empty = record {
  session = record {
    files = [];
    events = [];
    staged = [];
    durable_files = [];
    durable_events = [];
  };
  storage = record { drawn = 0; object = λ k. none };
  metrics = [];
}

abbrev upload_command : UploadFileCommand
upload_command = record {
  owner_id = codes "ann";
  filename = some (codes "a.txt");
  content_type = some (codes "text/plain");
  stream = chunk (codes "abc") ∷ [];
  idempotency_key = none;
  context = context;
}

abbrev upload_draws : UploadDraws
upload_draws = record { now = 1000000; file_id = codes "f"; event_id = codes "e"; nfc = λ s. s }

abbrev request : SignedRequest
request = record {
  file_id = codes "f";
  expires_at = 7;
  link_id = codes "l";
  key_id = codes "k";
  sig = codes "sv1" ++ 10 ∷ codes "f" ++ 10 ∷ codes "l" ++ 10 ∷ codes "7";
}

abbrev download_draws : DownloadDraws
download_draws = record { now = 6999999; event_id = codes "e2" }

abbrev uploaded : World View Objects
uploaded =
    after memory objects toy_hmac toy_b64 signer settings 10 (upload upload_command upload_draws)
      empty

abbrev downloaded : World View Objects
downloaded =
    after memory objects toy_hmac toy_b64 signer settings 10
      (download request context download_draws) uploaded

empty-IsSound : IsSound memory memory_laws objects object_laws empty
unfolding memory_laws
empty-IsSound = record {
  clean = refl;
  consistent = record {
    ids = λ a b in_none there same. absurd in_none;
    keys = λ a b in_none there same. absurd in_none;
    keyed = λ m in_none. absurd in_none;
    backed = λ m in_none is. absurd in_none;
  };
}

first_name : DrawsFresh memory memory_laws objects object_laws upload_command.stream 10 empty
unfolding memory_laws
first_name o f m written in_none = absurd in_none

-- A commit of the memory does not raise, so an upload whose transaction raises has added nothing.
decided : IsDecided memory memory_laws objects object_laws 10 upload_command upload_draws empty
unfolding memory memory_laws Upload.persist Upload.find_existing FileRepository.add
    AuditRepository.add
decided o f r x written raised = absurd (ground (arith, raised))

downloaded-Reach :
    Reach memory memory_laws objects object_laws toy_hmac toy_b64 signer settings 10 empty
      downloaded
downloaded-Reach =
    next uploaded (download request context download_draws)
      (next empty (upload upload_command upload_draws) here (first_name, decided)) tt

-- The file is there, and it is delivered.
uploaded_served :
    (resolve memory objects toy_hmac toy_b64 signer request context download_draws downloaded).0
    ≡ ok (record {
      path = codes "/0";
      filename = codes "a.txt";
      content_type = codes "text/plain";
      size_bytes = 3;
      sha256 = codes "abc";
    })
unfolding after with_session Upload.execute Upload.proceed Upload.find_existing Upload.store_new
    Upload.persist Upload.new_record sanitize_filename Filename.basename Filename.clean
    Filename.finish normalize_content_type matches_content_type is_line is_parameters is_token
    matches_subtype strip strip_start strip_end is_space split_last text_eq resolve check_signature
    check_expiry find_file check_stored deliver memory objects FileRepository.add FileRepository.get
    file_entity file_status file_model status_value optional_entity verify message message_text utf8
    utf8_replace encode_char decimal expected_signature b64url lookup AuditRepository.add is_expired
    payload
uploaded_served = refl

Reach-IsConsistent_example :
    IsConsistent memory memory_laws objects object_laws
      (memory_laws.view downloaded.session).durable_files
      downloaded.storage
    × NoMissing memory memory_laws objects object_laws toy_hmac toy_b64 signer downloaded
        (resolve memory objects toy_hmac toy_b64 signer request context download_draws downloaded).1
    × Outcome
        (IsIntact memory memory_laws objects object_laws toy_hmac toy_b64 signer)
        (λ x. Unit)
        (resolve memory objects toy_hmac toy_b64 signer request context download_draws downloaded)
Reach-IsConsistent_example =
    Reach-IsConsistent memory memory_laws objects object_laws toy_hmac toy_b64 signer settings 10
      empty downloaded request context download_draws empty-IsSound downloaded-Reach

-- A version 4 UUID.
abbrev uuid : ℕ → Text
uuid i = codes "0af0af0af0af4af08af0af0af0af0af0"

uuid-IsUuidHex : (i : ℕ) → IsUuidHex (uuid i)
uuid-IsUuidHex i = ground arith

local_storage-Implements_example :
    (laws : StorageLaws digest (local_storage digest uuid (codes "data" ∷ []))) × ((d : Disk)
        (key : Text)
      → laws.stored d key
        ≡ stored_at (codes "data" ∷ []) (path_for (codes "data" ∷ []) key) d.files)
local_storage-Implements_example =
    local_storage-Implements digest uuid uuid-IsUuidHex (codes "data" ∷ [])
