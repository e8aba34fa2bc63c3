-- ===== src/System/Delivery.antt =====
-- What the consistency of the database and the storage means for a download.
use secure_file_service.Application.CreateLink.{LinkSettings}
use secure_file_service.Exec.{Outcome, run-cases}
use secure_file_service.Application.Download.Serving.{resolve-IsServed}
use secure_file_service.System.Invariant.{IsConsistent, IsSound}
use secure_file_service.Application.Download.{resolve, DownloadDraws, SignedRequest}
use secure_file_service.Application.World.{World}
use secure_file_service.Security.Signer.{UrlSigner}
use secure_file_service.Prelude.Results.{ok}
use secure_file_service.Storage.{StorageLaws, FileStorage}
use secure_file_service.Prelude.{some, ℕ, inr, inl, length, ◌∙◌, ◌≡◌, Text}
use secure_file_service.Domain.Entities.{DownloadTarget, RequestContext}
use secure_file_service.Persistence.Session.{SessionLaws, Session}
use secure_file_service.System.Soundness.{Reach, Reach-IsSound}
use secure_file_service.System.Counting.{available-fields, NoMissing, resolve-NoMissing}

module _ {S F : Type 0} (db : Session S) (laws : SessionLaws db) (fs : FileStorage F)
    {sha256 : Text → Text} (storage_laws : StorageLaws sha256 fs) (hmac_sha256 : Text → Text → Text)
    (urlsafe_b64encode : Text → Text) (signer : UrlSigner) where
  IsConsistent-downloads :
      (w x : World S F) (req : SignedRequest) (context : RequestContext) (draws : DownloadDraws)
      (target : DownloadTarget)
      → IsSound db laws fs storage_laws w
      → resolve db fs hmac_sha256 urlsafe_b64encode signer req context draws w ≡ (ok target, x)
      → (key content : Text) × (fs.path_for key ≡ ok target.path)
        × (storage_laws.stored x.storage key ≡ some content)
        × (target.size_bytes ≡ length content)
        × (target.sha256 ≡ sha256 content)
  IsConsistent-downloads w x req context draws target sound h =
      let s =
        resolve-IsServed db fs hmac_sha256 urlsafe_b64encode signer laws storage_laws req context
          draws w x target h in
      let (status, key, size, hash) = available-fields s.model s.file s.entity s.not_deleted in
      let (content, stored, size', hash') =
        sound.consistent.backed s.model (rw sound.clean at s.listed) status in
      (
        s.file.storage_key,
        content,
        s.path,
        rw (s.storage_kept, key) stored,
        s.content.0 ∙ size ∙ size',
        s.content.1 ∙ hash ∙ hash',
      )

  -- The path of the target is that of stored bytes with the size and the hash of the target.
  abbrev pub IsIntact : DownloadTarget → World S F → Type 0
  IsIntact target x =
      (key content : Text) × (fs.path_for key ≡ ok target.path)
      × (storage_laws.stored x.storage key ≡ some content)
      × (target.size_bytes ≡ length content)
      × (target.sha256 ≡ sha256 content)

  pub resolve-IsIntact :
      (req : SignedRequest) (context : RequestContext) (draws : DownloadDraws) (w : World S F)
      → IsSound db laws fs storage_laws w
      → Outcome IsIntact
          (λ x. Unit)
          (resolve db fs hmac_sha256 urlsafe_b64encode signer req context draws w)
  resolve-IsIntact req context draws w sound =
      elim (run-cases (resolve db fs hmac_sha256 urlsafe_b64encode signer req context draws w)) [
        | inl (target, x, e) ↦ rw e (IsConsistent-downloads w x req context draws target sound e)
        | inr (r, x, e) ↦ rw e tt
      ]

module _ {S F : Type 0} (db : Session S) (laws : SessionLaws db) (fs : FileStorage F)
    {sha256 : Text → Text} (storage_laws : StorageLaws sha256 fs) (hmac_sha256 : Text → Text → Text)
    (urlsafe_b64encode : Text → Text) (signer : UrlSigner) (settings : LinkSettings)
    (max_upload_bytes : ℕ) where
  -- Start with a consistent database and storage and run any requests, in any order and with any
  -- failures of the database and the storage, where each upload draws a fresh storage name and no
  -- upload's commit takes effect and raises all the same (that of another request may). In
  -- every state that is reached, all ids and storage keys of rows are distinct and every available
  -- file has its bytes stored, with the row's size and hash; no download counts missing bytes; and
  -- a download that is served names a path whose stored bytes have the size and the hash that the
  -- response declares.
  pub Reach-IsConsistent :
      (start w : World S F) (req : SignedRequest) (context : RequestContext) (draws : DownloadDraws)
      → IsSound db laws fs storage_laws start
      → Reach db laws fs storage_laws hmac_sha256 urlsafe_b64encode signer settings max_upload_bytes
          start w
      → IsConsistent db laws fs storage_laws (laws.view w.session).durable_files w.storage
        × NoMissing db laws fs storage_laws hmac_sha256 urlsafe_b64encode signer w
            (resolve db fs hmac_sha256 urlsafe_b64encode signer req context draws w).1
        × Outcome
            (IsIntact db laws fs storage_laws hmac_sha256 urlsafe_b64encode signer)
            (λ x. Unit)
            (resolve db fs hmac_sha256 urlsafe_b64encode signer req context draws w)
  Reach-IsConsistent start w req context draws sound reached =
      let s =
        Reach-IsSound db laws fs storage_laws hmac_sha256 urlsafe_b64encode signer settings
          max_upload_bytes start w sound reached in
      (
        s.consistent,
        resolve-NoMissing db laws fs storage_laws hmac_sha256 urlsafe_b64encode signer req context
            draws w s,
        resolve-IsIntact db laws fs storage_laws hmac_sha256 urlsafe_b64encode signer req context
            draws w s,
      )
