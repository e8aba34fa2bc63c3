-- ===== src/Persistence/Schema/Fitting.antt =====
-- The rows that the handlers write fit into their columns.
use secure_file_service.Domain.MediaType.Laws.{normalize_content_type-IsMediaType}
use secure_file_service.Domain.Filename.Laws.{sanitize_filename-IsSafeName}
use secure_file_service.Persistence.Models.{audit_model, file_model}
use secure_file_service.Application.Upload.{
  UploadDraws, UploadFileCommand, uploaded_event, new_record,
}
use secure_file_service.Domain.Entities.{
  event_type_value, status_value, RequestContext, StoredObject,
}
use secure_file_service.Prelude.{
  refl, arith, true, ◌≡◌, ◌^◌, ◌<◌, ◌≤◌, length, Option, Text, ℕ, none, some,
}
use secure_file_service.Persistence.Schema.{
  text_cell, string, files_table, audit_events_table, file_cells, event_cells, takes, takes_row,
}
use secure_file_service.Api.Validation.{idempotency_key_ok}

-- An optional text of bounded length.
abbrev pub IsWithin : ℕ → Option Text → Type 0
IsWithin n none = Unit
IsWithin n (some s) = length s ≤ n

-- What a request brings: a user id, a request id and a client address of bounded length.
pub record IsOrdinary (owner_id : Text) (context : RequestContext) : Type 0 where
  pub owner : length owner_id ≤ 128
  pub request_id : IsWithin 128 context.request_id
  pub client_ip : IsWithin 64 context.client_ip

-- What the storage gives: a hexadecimal digest and a key within the column.
pub record IsStorable (stored : StoredObject) : Type 0 where
  pub digest : length stored.sha256 ≤ 64
  pub key : length stored.storage_key ≤ 512
  pub size : stored.size_bytes < 2 ^ 63

takes-IsWithin :
    (n : ℕ) (o : Option Text) → IsWithin n o → takes (string n) true (text_cell o) ≡ true
unfolding takes
takes-IsWithin n none h = refl
takes-IsWithin n (some s) h = ground arith

idempotency_key_ok-IsWithin : (key : Option Text) → idempotency_key_ok key ≡ true → IsWithin 255 key
unfolding idempotency_key_ok
idempotency_key_ok-IsWithin none h = tt
idempotency_key_ok-IsWithin (some key) h = ground arith

-- The row of an upload and its event fit into their columns, whatever file name and content type
-- the client sends, if its idempotency key passed the test of the route, the user id has at most
-- 128 characters, the request id at most 128 and the client address at most 64, and ids are the 36
-- characters of a UUID.
pub upload-takes :
    (cmd : UploadFileCommand) (draws : UploadDraws) (stored : StoredObject)
    → IsOrdinary cmd.owner_id cmd.context
    → IsStorable stored
    → idempotency_key_ok cmd.idempotency_key ≡ true
    → length draws.file_id ≡ 36
    → length draws.event_id ≡ 36
    → let file = new_record cmd draws stored in
      (takes_row files_table.columns (file_cells (file_model file)) ≡ true)
      × (takes_row audit_events_table.columns
            (event_cells (audit_model (uploaded_event cmd draws file)))
          ≡ true)
unfolding new_record uploaded_event file_model audit_model takes_row takes idempotency_key_ok
    status_value event_type_value
upload-takes cmd draws stored ordinary storable key file_id event_id =
    let name = (sanitize_filename-IsSafeName draws.nfc cmd.filename).bounded in
    let type = (normalize_content_type-IsMediaType cmd.content_type).bounded in
    let idempotency =
      takes-IsWithin 255 cmd.idempotency_key
        (idempotency_key_ok-IsWithin cmd.idempotency_key key) in
    let request = takes-IsWithin 128 cmd.context.request_id ordinary.request_id in
    let client = takes-IsWithin 64 cmd.context.client_ip ordinary.client_ip in
    (
      ground (
        arith, name, type, idempotency, ordinary.owner, storable.digest, storable.key,
        storable.size, file_id,
      ),
      ground (arith, request, client, ordinary.owner, file_id, event_id),
    )
