-- ===== src/Application/CreateLink/Issued.antt =====
-- What stands behind a link that is issued.
use secure_file_service.Prelude.{
  subst, ℕ, ◌+◌, ◌≤◌, ◌≡◌, ◌↔◌, refl, sym, Text, arith, none, some, true, inl, inr, Option-cases,
  All,
}
use secure_file_service.Prelude.Int.{pos}
use secure_file_service.Prelude.Results.{ok, Result-cases}
use secure_file_service.Prelude.Utf8.{IsAscii}
use secure_file_service.Exec.{run-cases}
use secure_file_service.Domain.Entities.{Datetime, FileRecord, available, SignedLink}
use secure_file_service.Domain.Ttl.{
  requested_ttl, validate_ttl, validate_ttl_iff, expiry_for, timestamp, is_expired,
  is_expired-expiry_for,
}
use secure_file_service.Security.Signer.{UrlSigner, Signature, sign, verify}
use secure_file_service.Security.Signer.Laws.{verify-sign}
use secure_file_service.Prelude.Dict.{lookup}
use secure_file_service.Persistence.Models.{FileModel, file_entity, audit_model}
use secure_file_service.Persistence.Session.{Session, SessionLaws, Occurs, staged_event, committed}
use secure_file_service.Persistence.FileRepository
use secure_file_service.Persistence.FileRepository.Laws.{get_for_owner-found}
use secure_file_service.Persistence.AuditRepository
use secure_file_service.Application.World.{World}
use secure_file_service.Application.CreateLink.{
  CreateSignedLinkCommand, LinkSettings, LinkDraws, link_event, build_download_url, issue, execute,
}

module _ {S F : Type 0} (db : Session S) (laws : SessionLaws db) (hmac_sha256 : Text → Text → Text)
    (urlsafe_b64encode : Text → Text) (signer : UrlSigner) (settings : LinkSettings)
    (cmd : CreateSignedLinkCommand) (draws : LinkDraws) where
  -- The second half: expiry, signature, URL and event.
  pub record IsSigned (file : FileRecord) (ttl : ℕ) (w x : World S F) (link : SignedLink)
      : Type 0 where
    pub expiry : expiry_for draws.now ttl ≡ ok link.expires_at
    pub signature : Signature
    pub signed :
        sign hmac_sha256 urlsafe_b64encode signer link.file_id link.link_id
          (timestamp link.expires_at)
        ≡ ok signature
    pub key_id : link.key_id ≡ signature.key_id
    pub url :
        build_download_url settings.public_base_url link.file_id
          (timestamp link.expires_at)
          link.link_id
          signature.key_id
          signature.value
        ≡ some link.url
    pub names : (link.file_id ≡ file.id) × (link.link_id ≡ draws.link_id) × (link.ttl_seconds ≡ ttl)
    pub recorded :
        laws.view x.session
        ≡ committed (
            staged_event
              (audit_model (link_event cmd draws file ttl link.expires_at signature))
              (laws.view w.session))
    pub storage_kept : x.storage ≡ w.storage

  issue-IsSigned :
      (file : FileRecord) (ttl : ℕ) (w x : World S F) (link : SignedLink)
      → issue db hmac_sha256 urlsafe_b64encode signer settings cmd draws ttl file w ≡ (ok link, x)
      → IsSigned file ttl w x link
  unfolding issue AuditRepository.add
  issue-IsSigned file ttl w x link h = elim (Result-cases (expiry_for draws.now ttl)) [
    | inr (e, e1) ↦ absurd (ground (arith, e1))
    | inl (at, e1) ↦
        elim (Result-cases
          (sign hmac_sha256 urlsafe_b64encode signer file.id draws.link_id (timestamp at))) [
            | inr (e, e2) ↦ absurd (ground (arith, e1, e2))
            | inl (s, e2) ↦
                elim (Option-cases (
                  build_download_url settings.public_base_url file.id (timestamp at) draws.link_id
                    s.key_id s.value)) [
                      | inl e3 ↦ absurd (ground (arith, e1, e2, e3))
                      | inr (url, e3) ↦
                          let m = audit_model (link_event cmd draws file ttl at s) in
                          let (r, t) = db.add_event m w.session in
                          let law1 = laws.add_event_law m w.session in
                          let law2 = laws.commit_law t in
                          let is : link ≡ record {
                            link_id = draws.link_id;
                            file_id = file.id;
                            url = url;
                            expires_at = at;
                            key_id = s.key_id;
                            ttl_seconds = ttl;
                          } =
                            ground (arith, e1, e2, e3) in
                          record {
                            expiry = rw is e1;
                            signature = s;
                            signed = rw is e2;
                            key_id = rw is refl;
                            url = rw is e3;
                            names = rw is (refl, refl, refl);
                            recorded = rw is (ground (arith, e1, e2, e3));
                            storage_kept = ground (arith, e1, e2, e3);
                          }
                    ]
          ]
  ]

  -- A link is issued only for a TTL from 1 to the maximum, and for an available file with the
  -- requested id that the caller owns; it is signed under the active key for exactly that file, its
  -- own id and its expiry, the URL carries these, and one event is committed with it.
  pub record IsIssued (w x : World S F) (link : SignedLink) : Type 0 where
    pub file : FileRecord
    pub model : FileModel
    pub ttl :
        (requested_ttl cmd.ttl_seconds settings.default_ttl ≡ pos link.ttl_seconds)
        × (1 ≤ link.ttl_seconds)
        × (link.ttl_seconds ≤ settings.max_ttl)
    pub listed : Occurs model (laws.view w.session).files
    pub owned : (model.id ≡ cmd.file_id) × (model.owner_id ≡ cmd.owner_id)
    pub entity : file_entity model ≡ ok file
    pub not_deleted : file.status ≡ available
    pub signing :
        (s : S) × (laws.view s ≡ laws.view w.session)
        × IsSigned file link.ttl_seconds (record w { session = s }) x link

  -- A call that returns a link has found a row with the requested id that the caller owns and that
  -- is available, and a TTL, requested or by default, between 1 and the maximum. The link names that
  -- file and that TTL, its URL carries a signature for its fields, and its event is committed.
  pub execute-IsIssued :
      (w x : World S F) (link : SignedLink)
      → execute db hmac_sha256 urlsafe_b64encode signer settings cmd draws w ≡ (ok link, x)
      → IsIssued w x link
  unfolding execute
  execute-IsIssued w x link h =
      elim (Result-cases (validate_ttl cmd.ttl_seconds settings.default_ttl settings.max_ttl)) [
        | inr (e, e1) ↦ absurd (ground (arith, e1))
        | inl (ttl, e1) ↦
            elim (run-cases (FileRepository.get_for_owner db cmd.file_id cmd.owner_id w.session)) [
              | inr (e, s, e2) ↦ absurd (ground (arith, e1, e2))
              | inl (none, s, e2) ↦ absurd (ground (arith, e1, e2))
              | inl (some file, s, e2) ↦
                  let (m, there, id, owner, entity, same) =
                    get_for_owner-found db laws cmd.file_id cmd.owner_id w.session s file e2 in
                  let status : file.status ≡ available = ground (arith, e1, e2) in
                  let signed =
                    issue-IsSigned file ttl (record w { session = s }) x link
                      (ground (arith, e1, e2)) in
                  let (valid, low, high) =
                    (validate_ttl_iff cmd.ttl_seconds settings.default_ttl settings.max_ttl ttl).0
                      e1 in
                  let is : link.ttl_seconds ≡ ttl = signed.names.2 in
                  record {
                    file = file;
                    model = m;
                    ttl = rw is (valid, low, high);
                    listed = there;
                    owned = (id, owner);
                    entity = entity;
                    not_deleted = status;
                    signing = (
                      s,
                      same,
                      subst (λ t. IsSigned file t (record w { session = s }) x link) (sym is)
                          signed,
                    );
                  }
            ]
      ]

  -- An issued link carries a signature that verifies for it at every signer that still has its
  -- key, and from then on the link is expired exactly when its TTL has passed, counted in whole
  -- seconds.
  pub issued_link_verifies :
      (b64_ascii : (bytes : Text) → All IsAscii (urlsafe_b64encode bytes)) (w x : World S F)
      (link : SignedLink) (verifier : UrlSigner) (now : Datetime)
      → execute db hmac_sha256 urlsafe_b64encode signer settings cmd draws w ≡ (ok link, x)
      → lookup link.key_id verifier.keys ≡ lookup link.key_id signer.keys
      → (sig : Text) × (build_download_url settings.public_base_url link.file_id
            (timestamp link.expires_at)
            link.link_id
            link.key_id
            sig
          ≡ some link.url)
        × (verify hmac_sha256 urlsafe_b64encode verifier link.file_id link.link_id
              (timestamp link.expires_at)
              link.key_id
              sig
            ≡ ok tt)
        × ((is_expired (timestamp link.expires_at) now ≡ true)
            ↔ (timestamp draws.now + link.ttl_seconds ≤ timestamp now))
  issued_link_verifies b64_ascii w x link verifier now issued keeps =
      let i = execute-IsIssued w x link issued in
      let (s, same, signed) = i.signing in
      let key = signed.key_id in
      (
        signed.signature.value,
        rw key signed.url,
        rw key (
            verify-sign hmac_sha256 urlsafe_b64encode b64_ascii signer verifier link.file_id
              link.link_id (timestamp link.expires_at) signed.signature (rw key at keeps)
              signed.signed),
        is_expired-expiry_for draws.now now link.ttl_seconds signed.expiry,
      )
