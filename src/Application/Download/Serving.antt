-- ===== src/Application/Download/Serving.antt =====
-- What a download that is served shows, and when a download is served.
use secure_file_service.Prelude.{◌∙◌, ℕ, ◌≡◌, ◌≢◌, refl, Text, arith, none, some, false, inl, inr}
use secure_file_service.Prelude.Results.{ok}
use secure_file_service.Exec.{run-cases}
use secure_file_service.Domain.Entities.{RequestContext, DownloadTarget, FileRecord, available}
use secure_file_service.Domain.Ttl.{is_expired}
use secure_file_service.Security.Signer.{UrlSigner, verify}
use secure_file_service.Persistence.Models.{FileModel, file_entity, audit_model}
use secure_file_service.Persistence.Session.{Session, SessionLaws, Occurs, staged_event, committed}
use secure_file_service.Persistence.FileRepository
use secure_file_service.Persistence.FileRepository.Laws.{get-found}
use secure_file_service.Persistence.AuditRepository
use secure_file_service.Storage.{FileStorage, StorageLaws}
use secure_file_service.Application.World.{World}
use secure_file_service.Application.Download.{
  deliver, SignedRequest, DownloadDraws, check_signature, check_expiry, find_file, check_stored,
  downloaded_event, resolve,
}

module _ {S F : Type 0} (db : Session S) (fs : FileStorage F) (hmac_sha256 : Text → Text → Text)
    (urlsafe_b64encode : Text → Text) (signer : UrlSigner) (laws : SessionLaws db)
    {sha256 : Text → Text} (storage_laws : StorageLaws sha256 fs) where
  pub check_signature-ok :
      (req : SignedRequest) (w x : World S F)
      → check_signature db fs hmac_sha256 urlsafe_b64encode signer req w ≡ (ok tt, x)
      → (verify hmac_sha256 urlsafe_b64encode signer req.file_id req.link_id req.expires_at
            req.key_id req.sig
          ≡ ok tt)
        × (x ≡ w)
  unfolding check_signature
  check_signature-ok req w x h = ground arith

  pub check_expiry-ok :
      (req : SignedRequest) (now : ℕ) (w x : World S F)
      → check_expiry db fs hmac_sha256 urlsafe_b64encode signer req now w ≡ (ok tt, x)
      → (is_expired req.expires_at now ≡ false) × (x ≡ w)
  unfolding check_expiry
  check_expiry-ok req now w x h = ground arith

  pub find_file-ok :
      (req : SignedRequest) (w x : World S F) (file : FileRecord)
      → find_file db fs hmac_sha256 urlsafe_b64encode signer req w ≡ (ok file, x)
      → (m : FileModel) × Occurs m (laws.view w.session).files
        × (m.id ≡ req.file_id)
        × (file_entity m ≡ ok file)
        × (file.status ≡ available)
        × (laws.view x.session ≡ laws.view w.session)
        × (x.storage ≡ w.storage)
  unfolding find_file
  find_file-ok req w x file h = elim (run-cases (FileRepository.get db req.file_id w.session)) [
    | inl (none, s, e) ↦ absurd (ground (arith, e))
    | inl (some found, s, e) ↦
        let (m, there, id, entity, same) = get-found db laws req.file_id w.session s found e in
        (m, there, id, ground (arith, e), ground (arith, e), ground (arith, e), ground (arith, e))
    | inr (r, s, e) ↦ absurd (ground (arith, e))
  ]

  check_stored-ok :
      (file : FileRecord) (w x : World S F)
      → check_stored db fs hmac_sha256 urlsafe_b64encode signer file w ≡ (ok tt, x)
      → (storage_laws.stored w.storage file.storage_key ≢ none) × (x ≡ w)
  unfolding check_stored
  check_stored-ok file w x h = ground (arith, storage_laws.exists_law file.storage_key w.storage)

  deliver-ok :
      (req : SignedRequest) (context : RequestContext) (draws : DownloadDraws) (file : FileRecord)
      (w x : World S F) (target : DownloadTarget)
      → deliver db fs hmac_sha256 urlsafe_b64encode signer req context draws file w ≡ (ok target, x)
      → (laws.view x.session
          ≡ committed (
              staged_event
                (audit_model (downloaded_event req context draws file))
                (laws.view w.session)))
        × (x.storage ≡ w.storage)
        × (fs.path_for file.storage_key ≡ ok target.path)
        × (target.size_bytes ≡ file.size_bytes)
        × (target.sha256 ≡ file.sha256)
        × (target.filename ≡ file.original_filename)
        × (target.content_type ≡ file.content_type)
  unfolding deliver AuditRepository.add
  deliver-ok req context draws file w x target h =
      let m = audit_model (downloaded_event req context draws file) in
      let (r, s) = db.add_event m w.session in
      ground (arith, laws.add_event_law m w.session, laws.commit_law s)

  -- What stands behind a served download.
  pub record IsServed (req : SignedRequest) (context : RequestContext) (draws : DownloadDraws)
      (w x : World S F) (target : DownloadTarget) : Type 0 where
    pub model : FileModel
    pub file : FileRecord
    pub signed :
        verify hmac_sha256 urlsafe_b64encode signer req.file_id req.link_id req.expires_at
          req.key_id req.sig
        ≡ ok tt
    pub in_time : is_expired req.expires_at draws.now ≡ false
    pub listed : Occurs model (laws.view w.session).files
    pub id : model.id ≡ req.file_id
    pub entity : file_entity model ≡ ok file
    pub not_deleted : file.status ≡ available
    pub stored : storage_laws.stored w.storage file.storage_key ≢ none
    pub recorded :
        laws.view x.session
        ≡ committed (
            staged_event
              (audit_model (downloaded_event req context draws file))
              (laws.view w.session))
    pub storage_kept : x.storage ≡ w.storage
    pub path : fs.path_for file.storage_key ≡ ok target.path
    pub content : (target.size_bytes ≡ file.size_bytes) × (target.sha256 ≡ file.sha256)
    pub headers :
        (target.filename ≡ file.original_filename) × (target.content_type ≡ file.content_type)

  -- A download is served only if the signature verifies for exactly the request's file, link and
  -- expiry, the link has not expired, a row with the requested id is available, and its bytes are
  -- stored; then exactly one download event is committed, the storage is unchanged, and the target
  -- has the path, name, type, size and hash of that row.
  pub resolve-IsServed :
      (req : SignedRequest) (context : RequestContext) (draws : DownloadDraws) (w x : World S F)
      (target : DownloadTarget)
      → resolve db fs hmac_sha256 urlsafe_b64encode signer req context draws w ≡ (ok target, x)
      → IsServed req context draws w x target
  unfolding resolve
  resolve-IsServed req context draws w x target h =
      let p = check_signature db fs hmac_sha256 urlsafe_b64encode signer req w in
      let e1 : p ≡ (ok tt, p.1) = ground arith in
      let (signed, same1) = check_signature-ok req w p.1 e1 in
      let q = check_expiry db fs hmac_sha256 urlsafe_b64encode signer req draws.now p.1 in
      let e2 : q ≡ (ok tt, q.1) = ground (arith, e1) in
      let (in_time, same2) = check_expiry-ok req draws.now p.1 q.1 e2 in
      elim (run-cases (find_file db fs hmac_sha256 urlsafe_b64encode signer req q.1)) [
        | inr (r, y, e3) ↦ absurd (ground (arith, e1, e2, e3))
        | inl (file, y, e3) ↦
            let (m, there, id, entity, status, view3, storage3) = find_file-ok req q.1 y file e3 in
            let s = check_stored db fs hmac_sha256 urlsafe_b64encode signer file y in
            let e4 : s ≡ (ok tt, s.1) = ground (arith, e1, e2, e3) in
            let (stored, same4) = check_stored-ok file y s.1 e4 in
            let back : q.1 ≡ w = same2 ∙ same1 in
            let (recorded, kept, path, size, hash, name, type) =
              deliver-ok req context draws file s.1 x target (ground (arith, e1, e2, e3, e4)) in
            record {
              model = m;
              file = file;
              signed = signed;
              in_time = in_time;
              listed = rw (← back) there;
              id = id;
              entity = entity;
              not_deleted = status;
              stored = rw (← back, ← storage3) stored;
              recorded = rw (← back, ← view3, ← same4) recorded;
              storage_kept = rw (kept, same4, storage3, back) refl;
              path = path;
              content = (size, hash);
              headers = (name, type);
            }
      ]
