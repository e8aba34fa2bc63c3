-- ===== src/Api/Endpoints/Privacy.antt =====
-- Whatever an owner asks for, the files of the others stay as they are.
use secure_file_service.Security.Authenticator.{authenticate}
use secure_file_service.Api.Http.{error_response, Body, http_response, Response}
use secure_file_service.Application.Revocation.{HasUniqueIds}
use secure_file_service.Persistence.FileRepository.Laws.{get_for_owner-Outcome}
use secure_file_service.Persistence.AuditRepository.Laws.{IsClean}
use secure_file_service.Application.DeleteFile.{DeleteDraws, DeleteFileCommand}
use secure_file_service.Application.Upload.{UploadDraws, UploadFileCommand, new_record}
use secure_file_service.Persistence.AuditRepository.{of_file}
use secure_file_service.Application.World.{on_session, World}
use secure_file_service.Persistence.FileRepository.{with_status, has_owner, has_id}
use secure_file_service.Application.CreateLink.{CreateSignedLinkCommand, LinkSettings}
use secure_file_service.Security.Signer.{UrlSigner}
use secure_file_service.Storage.{StorageLaws, FileStorage}
use secure_file_service.Persistence.Models.{file_entity-fields, file_model, FileModel}
use secure_file_service.Persistence.Session.{update_where, Occurs, SessionLaws, Session}
use secure_file_service.Prelude.{
  Option-cases, ◌⊎◌, Option, ◌∙◌, ap, some, refl, inl, Bool-cases, inr, text_eq_iff, arith, [],
  text_eq, map, ◌∷◌, not, ◌++◌, keep, ℕ, List, ◌≡◌, Text,
}
use secure_file_service.Application.Upload
use secure_file_service.Prelude.{none, some}
use secure_file_service.Application.CreateLink
use secure_file_service.Application.DeleteFile
use secure_file_service.Application.Queries
use secure_file_service.Persistence.FileRepository
use secure_file_service.Persistence.AuditRepository
use secure_file_service.System.{with_session}
use secure_file_service.Exec.{run-cases, Exec, pure, ◌>>=◌}
use secure_file_service.Domain.Entities.{RequestContext, deleted}
use secure_file_service.Api.Endpoints.{
  listing, audited, linked, removed, found, uploaded, ttl_of, endpoint, list_audit_events_endpoint,
  Caller, create_link_endpoint, delete_file_endpoint, get_file_endpoint, get_current_user,
  list_files_endpoint, serve_owner, respond, upload_file_endpoint, OwnerRequest, upload_file,
  list_files, get_file, delete_file, create_link, list_audit_events,
}

-- The rows of other owners.
abbrev pub others : Text → List FileModel → List FileModel
others user files = keep (λ m. not (text_eq m.owner_id user)) files

others-append :
    (user : Text) (files : List FileModel) (m : FileModel)
    → m.owner_id ≡ user
    → others user (files ++ m ∷ []) ≡ others user files
others-append user [] m own = ground (arith, text_eq_iff m.owner_id user, own)
others-append user (x ∷ files) m own = ground (arith, others-append user files m own)

-- Marking rows of one's own.
others-marked :
    (user id : Text) (at : ℕ) (files : List FileModel)
    → ((m : FileModel) → Occurs m files → m.id ≡ id → m.owner_id ≡ user)
    → others user (map (update_where (has_id id) (with_status deleted at)) files)
      ≡ others user files
others-marked user id at [] own = refl
others-marked user id at (x ∷ files) own =
    let rest = others-marked user id at files (λ m there. own m (inr there)) in
    elim (Bool-cases (text_eq x.id id)) [
      | inl hit ↦
          let mine = own x (inl refl) ((text_eq_iff x.id id).0 hit) in
          ground (arith, hit, rest, mine, text_eq_iff x.owner_id user)
      | inr miss ↦ ground (arith, miss, rest)
    ]

-- A call whose result is only put into a response leaves the state of the call.
bind-pure :
    {W A B : Type 0} (m : Exec W A) (f : A → B) (w : W) → ((m >>= λ a. pure (f a)) w).1 ≡ (m w).1
bind-pure m f w = elim (run-cases (m w)) [
  | inl (a, x, e) ↦ ground (arith, e)
  | inr (r, x, e) ↦ ground (arith, e)
]

module _ {S F : Type 0} (db : Session S) (laws : SessionLaws db) (fs : FileStorage F)
    {sha256 : Text → Text} (storage_laws : StorageLaws sha256 fs) (hmac_sha256 : Text → Text → Text)
    (urlsafe_b64encode : Text → Text) (signer : UrlSigner) (settings : LinkSettings)
    (max_upload_bytes : ℕ) where
  abbrev Untouched : Text → World S F → World S F → Type 0
  Untouched user w x =
      others user (laws.view x.session).durable_files
      ≡ others user (laws.view w.session).durable_files

  list_files-files :
      (user : Text) (limit offset : ℕ) (s : S)
      → (laws.view (Queries.list_files db user limit offset s).1).durable_files
        ≡ (laws.view s).durable_files
  unfolding Queries.list_files FileRepository.list_for_owner
  list_files-files user limit offset s = elim (run-cases (db.count_files (has_owner user) s)) [
    | inr (r, t, e) ↦ ground (arith, e, laws.count_files_law (has_owner user) s)
    | inl (n, t, e) ↦ elim (run-cases (db.page_files (has_owner user) limit offset t)) [
      | inr (r, u, e2) ↦ ground (
        arith,
        e,
        e2,
        laws.count_files_law (has_owner user) s,
        laws.page_files_law (has_owner user) limit offset t,
      )
      | inl (rows, u, e2) ↦ ground (
        arith,
        e,
        e2,
        laws.count_files_law (has_owner user) s,
        laws.page_files_law (has_owner user) limit offset t,
      )
    ]
  ]

  list_for_file-files :
      (id : Text) (limit offset : ℕ) (s : S)
      → (laws.view (AuditRepository.list_for_file db id limit offset s).1).durable_files
        ≡ (laws.view s).durable_files
  unfolding AuditRepository.list_for_file
  list_for_file-files id limit offset s = elim (run-cases (db.count_events (of_file id) s)) [
    | inr (r, t, e) ↦ ground (arith, e, laws.count_events_law (of_file id) s)
    | inl (n, t, e) ↦ elim (run-cases (db.page_events (of_file id) limit offset t)) [
      | inr (r, u, e2) ↦ ground (
        arith,
        e,
        e2,
        laws.count_events_law (of_file id) s,
        laws.page_events_law (of_file id) limit offset t,
      )
      | inl (rows, u, e2) ↦ ground (
        arith,
        e,
        e2,
        laws.count_events_law (of_file id) s,
        laws.page_events_law (of_file id) limit offset t,
      )
    ]
  ]

  get_file-files :
      (user id : Text) (s : S)
      → (laws.view (Queries.get_file db user id s).1).durable_files ≡ (laws.view s).durable_files
  unfolding Queries.get_file
  get_file-files user id s = elim (run-cases (FileRepository.get_for_owner db id user s)) [
    | inr (r, t, e) ↦ ground (arith, e, get_for_owner-Outcome db laws id user s)
    | inl (found, t, e) ↦ ground (arith, e, get_for_owner-Outcome db laws id user s)
  ]

  list_audit_events-files :
      (user id : Text) (limit offset : ℕ) (s : S)
      → (laws.view (Queries.list_audit_events db user id limit offset s).1).durable_files
        ≡ (laws.view s).durable_files
  unfolding Queries.list_audit_events
  list_audit_events-files user id limit offset s =
      elim (run-cases (FileRepository.get_for_owner db id user s)) [
        | inr (r, t, e) ↦ ground (arith, e, get_for_owner-Outcome db laws id user s)
        | inl (none, t, e) ↦ ground (arith, e, get_for_owner-Outcome db laws id user s)
        | inl (some file, t, e) ↦ ground (
          arith,
          e,
          get_for_owner-Outcome db laws id user s,
          list_for_file-files id limit offset t,
        )
      ]

  Upload-Untouched :
      (cmd : UploadFileCommand) (draws : UploadDraws) (w : World S F)
      → IsClean (laws.view w.session)
      → Untouched cmd.owner_id w (Upload.execute db fs max_upload_bytes cmd draws w).1
  unfolding new_record file_model
  Upload-Untouched cmd draws w clean =
      elim (Upload.Ends.execute-Ends db laws fs max_upload_bytes cmd draws w) [
        | inl (r, f, e, session, storage) ↦ rw session refl
        | inr (o, f, e, inl (same, storage)) ↦ rw same.0 refl
        | inr (o, f, e, inr (inl (added, storage, apart))) ↦
            rw (added, ← clean)
              (others-append cmd.owner_id (laws.view w.session).files
                (file_model (new_record cmd draws o)) refl)
        | inr (o, f, e, inr (inr (d, same_view, later, storage))) ↦
            rw (later.0, d.done.0, same_view, ← clean)
              (others-append cmd.owner_id (laws.view w.session).files
                (file_model (new_record cmd draws o)) refl)
      ]

  DeleteFile-Untouched :
      (cmd : DeleteFileCommand) (draws : DeleteDraws) (w : World S F)
      → IsClean (laws.view w.session)
      → HasUniqueIds (laws.view w.session).durable_files
      → Untouched cmd.owner_id w (DeleteFile.execute db fs cmd draws w).1
  DeleteFile-Untouched cmd draws w clean unique =
      elim (DeleteFile.Ends.execute-Ends db laws fs storage_laws cmd draws w) [
        | inl (same, storage) ↦ rw same.0 refl
        | inr (file, m, there, owner, entity, marked, storage) ↦
            let is = (file_entity-fields m file entity).0 in
            rw (marked.0, ← clean)
              (others-marked cmd.owner_id file.id draws.now (laws.view w.session).files (λ n hn e.
                ap (λ (x : FileModel). x.owner_id)
                  (unique n m (rw (← clean) hn) (rw (← clean) there) (e ∙ is))
                ∙ owner))
      ]

  endpoint-Untouched :
      (user : Text) (context : RequestContext) (request : OwnerRequest) (w : World S F)
      → IsClean (laws.view w.session)
      → HasUniqueIds (laws.view w.session).durable_files
      → Untouched user w
          (endpoint db fs hmac_sha256 urlsafe_b64encode signer settings max_upload_bytes user
            context request w).1
  unfolding upload_file_endpoint list_files_endpoint get_file_endpoint delete_file_endpoint
      create_link_endpoint list_audit_events_endpoint
  endpoint-Untouched user context (upload_file filename content_type stream key draws) w clean
        unique =
      let cmd : UploadFileCommand = record {
        owner_id = user;
        filename = filename;
        content_type = content_type;
        stream = stream;
        idempotency_key = key;
        context = context;
      } in
      rw (bind-pure (Upload.execute db fs max_upload_bytes cmd draws) uploaded w)
        (Upload-Untouched cmd draws w clean)
  endpoint-Untouched user context (list_files limit offset) w clean unique =
      rw (bind-pure (on_session (Queries.list_files db user limit offset)) (listing limit offset) w)
        (ap (others user) (list_files-files user limit offset w.session))
  endpoint-Untouched user context (get_file id) w clean unique =
      rw (bind-pure (on_session (Queries.get_file db user id)) found w)
        (ap (others user) (get_file-files user id w.session))
  endpoint-Untouched user context (delete_file id draws) w clean unique =
      let cmd : DeleteFileCommand = record { owner_id = user; file_id = id; context = context } in
      rw (bind-pure (DeleteFile.execute db fs cmd draws) removed w)
        (DeleteFile-Untouched cmd draws w clean unique)
  endpoint-Untouched user context (create_link id request draws) w clean unique =
      let cmd : CreateSignedLinkCommand = record {
        owner_id = user;
        file_id = id;
        ttl_seconds = ttl_of request;
        context = context;
      } in
      rw
        (bind-pure (CreateLink.execute db hmac_sha256 urlsafe_b64encode signer settings cmd draws)
          linked w)
        (ap (others user)
          (CreateLink.Ends.execute-files db laws hmac_sha256 urlsafe_b64encode signer settings cmd
            draws w clean).0)
  endpoint-Untouched user context (list_audit_events id limit offset) w clean unique =
      rw
        (bind-pure (on_session (Queries.list_audit_events db user id limit offset))
          (audited limit offset) w)
        (ap (others user) (list_audit_events-files user id limit offset w.session))

  respond-files :
      (id : Option Text) (m : Exec (World S F) (Response Body)) (w : World S F)
      → (laws.view
          (respond db fs hmac_sha256 urlsafe_b64encode signer settings max_upload_bytes id m
            w).1.session).durable_files
        ≡ (laws.view (m w).1.session).durable_files
  unfolding respond with_session
  respond-files id m w = rw (laws.rollback_law (m w).1.session) refl

  -- A request to an owner endpoint, whatever it asks for and however it ends, leaves the committed
  -- rows of all other owners exactly as they are, if ids are unique; with a missing or unknown API
  -- key it changes nothing at all and answers 401.
  pub serve_owner-IsPrivate :
      (entries : List (Text × Text)) (caller : Caller) (request : OwnerRequest) (w : World S F)
      → IsClean (laws.view w.session)
      → HasUniqueIds (laws.view w.session).durable_files
      → let (response, x) =
          serve_owner db fs hmac_sha256 urlsafe_b64encode signer settings max_upload_bytes entries
            caller request w in
        ((authenticate entries caller.api_key ≡ none) × (x ≡ w) × (response.status ≡ 401))
        ⊎ ((user : Text) × (authenticate entries caller.api_key ≡ some user)
            × (others user (laws.view x.session).durable_files
                ≡ others user (laws.view w.session).durable_files))
  unfolding serve_owner get_current_user http_response error_response
  serve_owner-IsPrivate entries caller request w clean unique =
      elim (Option-cases (authenticate entries caller.api_key)) [
        | inl unknown ↦ inl (unknown, ground (arith, unknown), ground (arith, unknown))
        | inr (user, known) ↦
            let m =
              endpoint db fs hmac_sha256 urlsafe_b64encode signer settings max_upload_bytes user
                caller.context request in
            let closed = respond-files caller.context.request_id m w in
            inr (
              user,
              known,
              ground (
                arith,
                known,
                closed,
                endpoint-Untouched user caller.context request w clean unique,
              ),
            )
      ]
