-- ===== src/Application/Download/Ends.antt =====
-- Whether a download is served or not, the files and their bytes stay as they are.
use secure_file_service.Exec.{run-cases, Outcome}
use secure_file_service.Domain.Entities.{FileRecord, RequestContext}
use secure_file_service.Application.World.{World}
use secure_file_service.Security.Signer.{UrlSigner}
use secure_file_service.Storage.{StorageLaws, FileStorage}
use secure_file_service.Persistence.Session.{SessionLaws, Session}
use secure_file_service.Prelude.{inl, inr, ℕ, arith, Text, ◌≡◌}
use secure_file_service.Persistence.FileRepository
use secure_file_service.Persistence.AuditRepository.Laws.{IsClean, add-commit-files}
use secure_file_service.Application.Download.{
  downloaded_event, resolve, deliver, find_file, check_stored, check_signature, check_expiry,
  SignedRequest, DownloadDraws,
}

module _ {S F : Type 0} (db : Session S) (fs : FileStorage F) (hmac_sha256 : Text → Text → Text)
    (urlsafe_b64encode : Text → Text) (signer : UrlSigner) (laws : SessionLaws db)
    {sha256 : Text → Text} (storage_laws : StorageLaws sha256 fs) where
  abbrev SameFiles : World S F → World S F → Type 0
  SameFiles w x =
      ((laws.view x.session).durable_files ≡ (laws.view w.session).durable_files)
      × (x.storage ≡ w.storage)

  deliver-files :
      (req : SignedRequest) (context : RequestContext) (draws : DownloadDraws) (file : FileRecord)
      (w : World S F)
      → IsClean (laws.view w.session)
      → SameFiles w (deliver db fs hmac_sha256 urlsafe_b64encode signer req context draws file w).1
  unfolding deliver
  deliver-files req context draws file w clean =
      let law =
        add-commit-files db laws (downloaded_event req context draws file) w.session clean in
      ground (arith, law)

  find_file-files :
      (req : SignedRequest) (w : World S F)
      → Outcome
          (λ _ x. (laws.view x.session ≡ laws.view w.session) × (x.storage ≡ w.storage))
          (λ x. SameFiles w x)
          (find_file db fs hmac_sha256 urlsafe_b64encode signer req w)
  unfolding find_file FileRepository.get
  find_file-files req w = ground (arith, laws.get_file_law req.file_id w.session)

  abbrev Untouched : World S F → World S F → Type 0
  Untouched w x = (x.session ≡ w.session) × (x.storage ≡ w.storage)

  check_signature-files :
      (req : SignedRequest) (w : World S F)
      → Untouched w (check_signature db fs hmac_sha256 urlsafe_b64encode signer req w).1
  unfolding check_signature
  check_signature-files req w = ground arith

  check_expiry-files :
      (req : SignedRequest) (now : ℕ) (w : World S F)
      → Untouched w (check_expiry db fs hmac_sha256 urlsafe_b64encode signer req now w).1
  unfolding check_expiry
  check_expiry-files req now w = ground arith

  check_stored-files :
      (file : FileRecord) (w : World S F)
      → Untouched w (check_stored db fs hmac_sha256 urlsafe_b64encode signer file w).1
  unfolding check_stored
  check_stored-files file w = ground (arith, storage_laws.exists_law file.storage_key w.storage)

  pub resolve-files :
      (req : SignedRequest) (context : RequestContext) (draws : DownloadDraws) (w : World S F)
      → IsClean (laws.view w.session)
      → SameFiles w (resolve db fs hmac_sha256 urlsafe_b64encode signer req context draws w).1
  unfolding resolve
  resolve-files req context draws w clean =
      elim (run-cases (check_signature db fs hmac_sha256 urlsafe_b64encode signer req w)) [
        | inr (r, x, e) ↦ ground (arith, e, check_signature-files req w)
        | inl (u, x, e) ↦
            elim (run-cases
              (check_expiry db fs hmac_sha256 urlsafe_b64encode signer req draws.now x)) [
                | inr (r, y, e2) ↦
                    ground (
                      arith,
                      e,
                      e2,
                      check_signature-files req w,
                      check_expiry-files req draws.now x,
                    )
                | inl (v, y, e2) ↦
                    elim (run-cases (find_file db fs hmac_sha256 urlsafe_b64encode signer req y)) [
                      | inr (r, z, e3) ↦ ground (
                        arith,
                        e,
                        e2,
                        e3,
                        check_signature-files req w,
                        check_expiry-files req draws.now x,
                        find_file-files req y,
                      )
                      | inl (file, z, e3) ↦
                          elim (run-cases
                            (check_stored db fs hmac_sha256 urlsafe_b64encode signer file z)) [
                              | inr (r, t, e4) ↦ ground (
                                arith,
                                e,
                                e2,
                                e3,
                                e4,
                                check_signature-files req w,
                                check_expiry-files req draws.now x,
                                find_file-files req y,
                                check_stored-files file z,
                              )
                              | inl (q, t, e4) ↦ ground (
                                arith,
                                e,
                                e2,
                                e3,
                                e4,
                                clean,
                                check_signature-files req w,
                                check_expiry-files req draws.now x,
                                find_file-files req y,
                                check_stored-files file z,
                                deliver-files req context draws file t,
                              )
                            ]
                    ]
              ]
      ]
