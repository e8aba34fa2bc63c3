-- ===== src/System/Counting.antt =====
-- What a download counts, while the database and the storage are consistent: never missing bytes.
use secure_file_service.Application.Download.Serving.{
  check_signature-ok, check_expiry-ok, find_file-ok,
}
use secure_file_service.Domain.Ttl.{is_expired}
use secure_file_service.Exec.{◌>>◌, ◌>>=◌, Exec, Outcome-ok, run-cases}
use secure_file_service.System.Invariant.{IsSound}
use secure_file_service.Application.Download.{
  downloaded_event, deliver, check_stored, find_file, check_expiry, check_signature, resolve,
  DownloadDraws, SignedRequest,
}
use secure_file_service.Application.World.{
  downloads, unavailable, not_found, signature, expired, storage_missing, download_failures,
  MetricCall, World,
}
use secure_file_service.Security.Signer.{raised, signature_error, verify, UrlSigner}
use secure_file_service.Prelude.Results.{Result-cases, ok}
use secure_file_service.Storage.{StorageLaws, FileStorage}
use secure_file_service.Prelude.{
  none, some, true, Bool-cases, append-nil, ℕ, sym, All-append, ◌∷◌, [], append_assoc, inr, inl,
  ◌≢◌, ap, All, codes, ◌∙◌, text_eq_iff, ◌++◌, List, arith, ◌≡◌, Text,
}
use secure_file_service.Domain.Entities.{
  is_available, DownloadTarget, RequestContext, available, FileRecord, status_value,
}
use secure_file_service.Persistence.Session.{Occurs, SessionLaws, Session}
use secure_file_service.Persistence.Models.{FileModel, file_entity, file_status}
use secure_file_service.Persistence.FileRepository
use secure_file_service.Persistence.AuditRepository

-- A status that is read as available.
file_status-available :
    (value : Text) → file_status value ≡ ok available → value ≡ status_value available
unfolding file_status status_value
file_status-available value h = ground (arith, text_eq_iff value (codes "available"))

pub available-fields :
    (m : FileModel) (file : FileRecord)
    → file_entity m ≡ ok file
    → file.status ≡ available
    → (m.status ≡ status_value available)
      × (file.storage_key ≡ m.storage_key)
      × (file.size_bytes ≡ m.size_bytes)
      × (file.sha256 ≡ m.sha256)
unfolding file_entity
available-fields m file h is = elim (Result-cases (file_status m.status)) [
  | inl (s, e) ↦ (
    file_status-available m.status (ground (arith, e)),
    ground (arith, e),
    ground (arith, e),
    ground (arith, e),
  )
  | inr (x, e) ↦ absurd (ground (arith, e))
]

module _ {S F : Type 0} (db : Session S) (laws : SessionLaws db) (fs : FileStorage F)
    {sha256 : Text → Text} (storage_laws : StorageLaws sha256 fs) (hmac_sha256 : Text → Text → Text)
    (urlsafe_b64encode : Text → Text) (signer : UrlSigner) where
  -- The metrics of a call grow by calls that do not report missing bytes.
  abbrev pub NoMissing : World S F → World S F → Type 0
  NoMissing w x =
      (calls : List MetricCall) × (x.metrics ≡ w.metrics ++ calls)
      × All (λ c. c ≢ download_failures storage_missing) calls

  NoMissing-trans : (w x y : World S F) → NoMissing w x → NoMissing x y → NoMissing w y
  NoMissing-trans w x y (a, ea, ha) (b, eb, hb) = (
    a ++ b,
    eb ∙ ap (λ xs. xs ++ b) ea ∙ append_assoc w.metrics a b,
    All-append (λ c. c ≢ download_failures storage_missing) a b ha hb,
  )

  silent : (w x : World S F) → x.metrics ≡ w.metrics → NoMissing w x
  silent w x same = ([], same ∙ sym (append-nil w.metrics), tt)

  counted :
      (w x : World S F) (c : MetricCall)
      → x.metrics ≡ w.metrics ++ c ∷ []
      → c ≢ download_failures storage_missing
      → NoMissing w x
  counted w x c same other = (c ∷ [], same, (other, tt))

  check_signature-NoMissing :
      (req : SignedRequest) (w : World S F)
      → NoMissing w (check_signature db fs hmac_sha256 urlsafe_b64encode signer req w).1
  unfolding check_signature
  check_signature-NoMissing req w =
      let x = (check_signature db fs hmac_sha256 urlsafe_b64encode signer req w).1 in
      elim (Result-cases (
        verify hmac_sha256 urlsafe_b64encode signer req.file_id req.link_id req.expires_at
          req.key_id req.sig)) [
            | inl (u, e) ↦ silent w x (ground (arith, e))
            | inr (signature_error r, e) ↦
                counted w x (download_failures signature) (ground (arith, e))
                  (λ h. ground (arith, h))
            | inr (raised r, e) ↦ silent w x (ground (arith, e))
          ]

  check_expiry-NoMissing :
      (req : SignedRequest) (now : ℕ) (w : World S F)
      → NoMissing w (check_expiry db fs hmac_sha256 urlsafe_b64encode signer req now w).1
  unfolding check_expiry
  check_expiry-NoMissing req now w =
      let x = (check_expiry db fs hmac_sha256 urlsafe_b64encode signer req now w).1 in
      elim (Bool-cases (is_expired req.expires_at now)) [
        | inl late ↦
            counted w x (download_failures expired) (ground (arith, late)) (λ h. ground (arith, h))
        | inr early ↦ silent w x (ground (arith, early))
      ]

  find_file-NoMissing :
      (req : SignedRequest) (w : World S F)
      → NoMissing w (find_file db fs hmac_sha256 urlsafe_b64encode signer req w).1
  unfolding find_file
  find_file-NoMissing req w =
      let x = (find_file db fs hmac_sha256 urlsafe_b64encode signer req w).1 in
      elim (run-cases (FileRepository.get db req.file_id w.session)) [
        | inr (r, s, e) ↦ silent w x (ground (arith, e))
        | inl (none, s, e) ↦
            counted w x (download_failures not_found) (ground (arith, e)) (λ h. ground (arith, h))
        | inl (some file, s, e) ↦ elim (Bool-cases (is_available file)) [
          | inl is ↦ silent w x (ground (arith, e, is))
          | inr gone ↦
              counted w x (download_failures unavailable) (ground (arith, e, gone))
                (λ h. ground (arith, h))
        ]
      ]

  check_stored-NoMissing :
      (file : FileRecord) (w : World S F) (content : Text)
      → storage_laws.stored w.storage file.storage_key ≡ some content
      → NoMissing w (check_stored db fs hmac_sha256 urlsafe_b64encode signer file w).1
  unfolding check_stored
  check_stored-NoMissing file w content there =
      let x = (check_stored db fs hmac_sha256 urlsafe_b64encode signer file w).1 in
      elim (run-cases (fs.exists file.storage_key w.storage)) [
        | inr (r, f, e) ↦ silent w x (ground (arith, e))
        | inl (present, f, e) ↦
            let law =
              Outcome-ok _ _ _ present f (storage_laws.exists_law file.storage_key w.storage) e in
            let is : present ≡ true = ground (arith, law, there) in
            silent w x (ground (arith, e, is))
      ]

  deliver-NoMissing :
      (req : SignedRequest) (context : RequestContext) (draws : DownloadDraws) (file : FileRecord)
      (w : World S F)
      → NoMissing w (deliver db fs hmac_sha256 urlsafe_b64encode signer req context draws file w).1
  unfolding deliver
  deliver-NoMissing req context draws file w =
      let x = (deliver db fs hmac_sha256 urlsafe_b64encode signer req context draws file w).1 in
      elim (run-cases (
        (AuditRepository.add db (downloaded_event req context draws file) >> db.commit)
          w.session)) [
            | inr (r, s, e) ↦ silent w x (ground (arith, e))
            | inl (u, s, e) ↦ counted w x downloads (ground (arith, e)) (λ h. ground (arith, h))
          ]

  bind-NoMissing :
      {A B : Type 0} (m : Exec (World S F) A) (k : A → Exec (World S F) B) (w : World S F)
      → NoMissing w (m w).1
      → ((a : A) (x : World S F) → m w ≡ (ok a, x) → NoMissing x (k a x).1)
      → NoMissing w ((m >>= k) w).1
  bind-NoMissing m k w first rest = elim (run-cases (m w)) [
    | inl (a, x, e) ↦
        let y = ((m >>= k) w).1 in
        let head : NoMissing w x = rw e at first in
        let whole : y ≡ (k a x).1 = ground (arith, e) in
        rw whole (NoMissing-trans w x (k a x).1 head (rest a x e))
    | inr (r, x, e) ↦
        let head : NoMissing w x = rw e at first in
        let whole : ((m >>= k) w).1 ≡ x = ground (arith, e) in rw whole head
  ]

  pub resolve-NoMissing :
      (req : SignedRequest) (context : RequestContext) (draws : DownloadDraws) (w : World S F)
      → IsSound db laws fs storage_laws w
      → NoMissing w (resolve db fs hmac_sha256 urlsafe_b64encode signer req context draws w).1
  unfolding resolve
  resolve-NoMissing req context draws w sound =
      let last : FileRecord → Exec (World S F) DownloadTarget = λ file.
        check_stored db fs hmac_sha256 urlsafe_b64encode signer file
        >> deliver db fs hmac_sha256 urlsafe_b64encode signer req context draws file in
      let found : Exec (World S F) DownloadTarget =
        find_file db fs hmac_sha256 urlsafe_b64encode signer req >>= last in
      let timed : Exec (World S F) DownloadTarget =
        check_expiry db fs hmac_sha256 urlsafe_b64encode signer req draws.now >> found in
      bind-NoMissing (check_signature db fs hmac_sha256 urlsafe_b64encode signer req) (λ u. timed) w
        (check_signature-NoMissing req w)
        (λ u x e1.
          bind-NoMissing (check_expiry db fs hmac_sha256 urlsafe_b64encode signer req draws.now)
            (λ v. found) x (check_expiry-NoMissing req draws.now x)
            (λ v y e2.
              bind-NoMissing (find_file db fs hmac_sha256 urlsafe_b64encode signer req) last y
                (find_file-NoMissing req y)
                (λ file z e3.
                  let (m, there, id, entity, is, same, kept) =
                    find_file-ok db fs hmac_sha256 urlsafe_b64encode signer laws storage_laws req y
                      z file e3 in
                  let (status, key, size, hash) = available-fields m file entity is in
                  let back : y ≡ w =
                    (check_expiry-ok db fs hmac_sha256 urlsafe_b64encode signer laws storage_laws
                      req draws.now x y e2).1
                    ∙ (check_signature-ok db fs hmac_sha256 urlsafe_b64encode signer laws
                        storage_laws req w x e1).1 in
                  let listed : Occurs m (laws.view w.session).durable_files =
                    rw (← sound.clean, ← back) there in
                  let (content, stored, size', hash') = sound.consistent.backed m listed status in
                  bind-NoMissing (check_stored db fs hmac_sha256 urlsafe_b64encode signer file)
                    (λ q. deliver db fs hmac_sha256 urlsafe_b64encode signer req context draws file)
                    z (check_stored-NoMissing file z content (rw (kept, back, key) stored))
                    (λ q t e4. deliver-NoMissing req context draws file t))))
