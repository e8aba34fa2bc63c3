-- ===== src/Application/CreateLink/Ends.antt =====
-- Whether a link is issued or not, the files and their bytes stay as they are.
use secure_file_service.Persistence.FileRepository.Laws.{get_for_owner-Outcome}
use secure_file_service.Domain.Ttl.{validate_ttl, expiry_for}
use secure_file_service.Exec.{run-cases}
use secure_file_service.Prelude.Results.{Result-cases}
use secure_file_service.Persistence.AuditRepository.Laws.{add-commit-files, IsClean}
use secure_file_service.Domain.Entities.{FileRecord}
use secure_file_service.Application.World.{World}
use secure_file_service.Security.Signer.{UrlSigner}
use secure_file_service.Persistence.Session.{SessionLaws, Session}
use secure_file_service.Prelude.{none, some, inl, arith, inr, ℕ, Text, ◌≡◌}
use secure_file_service.Persistence.FileRepository
use secure_file_service.Application.CreateLink.{
  of_domain, link_event, timestamp, sign, issue, execute, CreateSignedLinkCommand, LinkSettings,
  LinkDraws,
}

module _ {S F : Type 0} (db : Session S) (laws : SessionLaws db) (hmac_sha256 : Text → Text → Text)
    (urlsafe_b64encode : Text → Text) (signer : UrlSigner) (settings : LinkSettings) where
  issue-files :
      (cmd : CreateSignedLinkCommand) (draws : LinkDraws) (ttl : ℕ) (file : FileRecord)
      (w : World S F)
      → IsClean (laws.view w.session)
      → let x = (issue db hmac_sha256 urlsafe_b64encode signer settings cmd draws ttl file w).1 in
        ((laws.view x.session).durable_files ≡ (laws.view w.session).durable_files)
        × (x.storage ≡ w.storage)
  unfolding issue
  issue-files cmd draws ttl file w clean = elim (Result-cases (expiry_for draws.now ttl)) [
    | inr (x, e) ↦ ground (arith, e)
    | inl (at, e) ↦
        elim (Result-cases
          (sign hmac_sha256 urlsafe_b64encode signer file.id draws.link_id (timestamp at))) [
            | inr (x, e2) ↦ ground (arith, e, e2)
            | inl (s, e2) ↦
                let event = link_event cmd draws file ttl at s in
                let law = add-commit-files db laws event w.session clean in
                ground (arith, e, e2, law)
          ]
  ]

  pub execute-files :
      (cmd : CreateSignedLinkCommand) (draws : LinkDraws) (w : World S F)
      → IsClean (laws.view w.session)
      → ((laws.view
            (execute db hmac_sha256 urlsafe_b64encode signer settings cmd draws
              w).1.session).durable_files
          ≡ (laws.view w.session).durable_files)
        × ((execute db hmac_sha256 urlsafe_b64encode signer settings cmd draws w).1.storage
            ≡ w.storage)
  unfolding execute
  execute-files cmd draws w clean =
      elim (run-cases (FileRepository.get_for_owner db cmd.file_id cmd.owner_id w.session)) [
        | inr (r, s, e) ↦
            ground (arith, e, get_for_owner-Outcome db laws cmd.file_id cmd.owner_id w.session)
        | inl (none, s, e) ↦
            ground (arith, e, get_for_owner-Outcome db laws cmd.file_id cmd.owner_id w.session)
        | inl (some file, s, e) ↦
            elim (Result-cases
              (of_domain (validate_ttl cmd.ttl_seconds settings.default_ttl settings.max_ttl))) [
                | inr (x, e2) ↦ ground (arith, e2)
                | inl (ttl, e2) ↦
                    let y : World S F = record w { session = s } in
                    ground (
                      arith,
                      e,
                      e2,
                      clean,
                      get_for_owner-Outcome db laws cmd.file_id cmd.owner_id w.session,
                      issue-files cmd draws ttl file y,
                    )
              ]
      ]
