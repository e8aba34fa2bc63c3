-- ===== src/Tests/Links.antt =====
-- Links, downloads and deletions at concrete inputs.
use secure_file_service.Prelude.Dict.{lookup}
use secure_file_service.Prelude.Percent.{quote_plus}
use secure_file_service.Prelude.Decimal.{decimal}
use secure_file_service.Prelude.Utf8.{utf8_replace, encode_char, utf8}
use secure_file_service.Domain.Lifecycle.{can_transition, transition}
use secure_file_service.Application.Revocation.{HasUniqueIds, no_download_after_delete}
use secure_file_service.Application.DeleteFile.Effects.{execute-Marked, Marked}
use secure_file_service.Domain.Ttl.{expiry_for, validate_ttl, is_expired, timestamp}
use secure_file_service.Persistence.FileRepository.{optional_entity, get_for_owner}
use secure_file_service.Domain.Errors.{Exception}
use secure_file_service.Persistence.Models.{file_status, file_entity, FileModel, file_model}
use secure_file_service.Tests.Memory.{
  toy_b64-IsAscii, toy_b64, objects, toy_hmac, object_laws, memory, Objects, memory_laws,
}
use secure_file_service.Application.DeleteFile.{
  remove_bytes, mark_deleted, DeleteDraws, DeleteFileCommand,
}
use secure_file_service.Application.Download.Serving.{resolve-IsServed, IsServed}
use secure_file_service.Application.Download.{
  deliver, check_stored, find_file, check_expiry, check_signature, resolve, DownloadDraws,
  SignedRequest,
}
use secure_file_service.Application.CreateLink.Issued.{
  issued_link_verifies, execute-IsIssued, IsIssued,
}
use secure_file_service.Prelude.Results.{ok, Result}
use secure_file_service.Application.CreateLink.{
  build_download_url, issue, LinkDraws, CreateSignedLinkCommand, LinkSettings,
}
use secure_file_service.Security.Signer.{
  b64url, expected_signature, sign, message_text, message, verify, UrlSigner,
}
use secure_file_service.Application.World.{World}
use secure_file_service.Persistence.Session.{Occurs, View}
use secure_file_service.Domain.Entities.{
  deleted, status_value, available, DownloadTarget, SignedLink, FileRecord, RequestContext,
}
use secure_file_service.Prelude.{
  inl, inr, sym, ◌∙◌, refl, strip_end, ◌≤◌, ◌+◌, ◌↔◌, true, ◌≢◌, some, text_eq, [], ◌⊎◌, ◌++◌,
  if◌then◌else◌, ◌∷◌, codes, none, Text, ◌≡◌,
}
use secure_file_service.Application.CreateLink
use secure_file_service.Application.DeleteFile
use secure_file_service.Persistence.FileRepository
use secure_file_service.Persistence.AuditRepository

abbrev pub context : RequestContext
context = record { request_id = none; client_ip = none }

abbrev pub kept : FileRecord
kept = record {
  id = codes "f";
  owner_id = codes "ann";
  original_filename = codes "a.txt";
  content_type = codes "text/plain";
  size_bytes = 3;
  sha256 = codes "abc";
  storage_key = codes "0";
  status = available;
  created_at = 0;
  updated_at = 0;
  idempotency_key = none;
  deleted_at = none;
}

abbrev pub view : View
view = record {
  files = file_model kept ∷ [];
  events = [];
  staged = [];
  durable_files = file_model kept ∷ [];
  durable_events = [];
}

abbrev pub world : World View Objects
world = record {
  session = view;
  storage = record {
    drawn = 1;
    object = λ k. if text_eq (codes "0") k then some (codes "abc") else none;
  };
  metrics = [];
}

abbrev pub signer : UrlSigner
signer = record { keys = (codes "k", codes "s") ∷ []; active = codes "k" }

abbrev pub settings : LinkSettings
settings = record { public_base_url = codes "http://x"; default_ttl = 5; max_ttl = 9 }

abbrev pub link_command : CreateSignedLinkCommand
link_command = record {
  owner_id = codes "ann";
  file_id = codes "f";
  ttl_seconds = none;
  context = context;
}

abbrev pub link_draws : LinkDraws
link_draws = record { now = 2000000; link_id = codes "l"; event_id = codes "e" }

abbrev pub link_run : Result Exception SignedLink × World View Objects
link_run = CreateLink.execute memory toy_hmac toy_b64 signer settings link_command link_draws world

abbrev pub link : SignedLink
link = record {
  link_id = codes "l";
  file_id = codes "f";
  url = codes "http://x/v1/download/f?exp=7&lid=l&kid=k&sig=sv1%0Af%0Al%0A7";
  expires_at = 7000000;
  key_id = codes "k";
  ttl_seconds = 5;
}

pub link_runs : link_run ≡ (ok link, link_run.1)
unfolding CreateLink.execute issue memory get_for_owner file_entity file_status file_model
    status_value optional_entity validate_ttl expiry_for sign message message_text utf8 encode_char
    decimal expected_signature b64url strip_end build_download_url quote_plus lookup text_eq
    AuditRepository.add
link_runs = refl

execute-IsIssued_example :
    IsIssued memory memory_laws toy_hmac toy_b64 signer settings link_command link_draws world
      link_run.1 link
execute-IsIssued_example =
    execute-IsIssued memory memory_laws toy_hmac toy_b64 signer settings link_command link_draws
      world link_run.1 link link_runs

issued_link_verifies_example :
    (sig : Text) × (build_download_url settings.public_base_url link.file_id
        (timestamp link.expires_at)
        link.link_id
        link.key_id
        sig
      ≡ some link.url)
    × (verify toy_hmac toy_b64 signer link.file_id link.link_id
          (timestamp link.expires_at)
          link.key_id
          sig
        ≡ ok tt)
    × ((is_expired (timestamp link.expires_at) 6999999 ≡ true)
        ↔ (timestamp link_draws.now + link.ttl_seconds ≤ timestamp 6999999))
issued_link_verifies_example =
    issued_link_verifies memory memory_laws toy_hmac toy_b64 signer settings link_command link_draws
      toy_b64-IsAscii world link_run.1 link signer 6999999 link_runs refl

abbrev request : SignedRequest
request = record {
  file_id = codes "f";
  expires_at = 7;
  link_id = codes "l";
  key_id = codes "k";
  sig = codes "sv1" ++ 10 ∷ codes "f" ++ 10 ∷ codes "l" ++ 10 ∷ codes "7";
}

abbrev pub download_draws : DownloadDraws
download_draws = record { now = 6999999; event_id = codes "e2" }

abbrev download : Result Exception DownloadTarget × World View Objects
download = resolve memory objects toy_hmac toy_b64 signer request context download_draws world

abbrev target : DownloadTarget
target = record {
  path = codes "/0";
  filename = codes "a.txt";
  content_type = codes "text/plain";
  size_bytes = 3;
  sha256 = codes "abc";
}

downloads_run : download ≡ (ok target, download.1)
unfolding resolve check_signature check_expiry find_file check_stored deliver memory objects
    FileRepository.get file_entity file_status file_model status_value optional_entity verify
    message message_text utf8 utf8_replace encode_char decimal expected_signature b64url strip_end
    lookup text_eq AuditRepository.add is_expired
downloads_run = refl

resolve-IsServed_example :
    IsServed memory objects toy_hmac toy_b64 signer memory_laws object_laws request context
      download_draws world download.1 target
resolve-IsServed_example =
    resolve-IsServed memory objects toy_hmac toy_b64 signer memory_laws object_laws request context
      download_draws world download.1 target downloads_run

abbrev delete_command : DeleteFileCommand
delete_command = record { owner_id = codes "ann"; file_id = codes "f"; context = context }

abbrev delete_draws : DeleteDraws
delete_draws = record { now = 3000000; event_id = codes "e3" }

abbrev deletion : Result Exception Unit × World View Objects
deletion = DeleteFile.execute memory objects delete_command delete_draws world

deletes_file : deletion ≡ (ok tt, deletion.1)
unfolding DeleteFile.execute mark_deleted remove_bytes memory objects get_for_owner file_entity
    file_status file_model status_value optional_entity transition can_transition
    FileRepository.set_status text_eq AuditRepository.add
deletes_file = refl

execute-Marked_example :
    (file : FileRecord) × (m : FileModel) × Occurs m (memory_laws.view world.session).files
    × (m.id ≡ delete_command.file_id)
    × (m.owner_id ≡ delete_command.owner_id)
    × (file_entity m ≡ ok file)
    × (((file.status ≡ deleted)
          × (memory_laws.view deletion.1.session ≡ memory_laws.view world.session)
          × (deletion.1.storage ≡ world.storage))
        ⊎ ((file.status ≡ available)
            × (memory_laws.view deletion.1.session
                ≡ Marked memory objects memory_laws object_laws delete_command delete_draws file
                    (memory_laws.view world.session))))
execute-Marked_example =
    execute-Marked memory objects memory_laws object_laws delete_command delete_draws world
      deletion.1 deletes_file

pub unique : HasUniqueIds (memory_laws.view world.session).files
unfolding memory_laws
unique a b (inl same) (inl same') same_id = sym same ∙ same'
unique a b (inl same) (inr none_later) same_id = absurd none_later
unique a b (inr none_later) there same_id = absurd none_later

no_download_after_delete_example :
    resolve memory objects toy_hmac toy_b64 signer request context download_draws deletion.1
    ≢ (ok target, deletion.1)
no_download_after_delete_example =
    no_download_after_delete memory objects memory_laws object_laws toy_hmac toy_b64 signer
      delete_command delete_draws world deletion.1 deletion.1 deletion.1 request context
      download_draws target unique deletes_file refl refl
