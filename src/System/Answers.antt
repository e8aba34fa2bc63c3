-- ===== src/System/Answers.antt =====
-- How a download of an available file answers: it is served, or it raises what one of its calls raised.
use secure_file_service.Domain.Errors.{Exception}
use secure_file_service.Domain.Ttl.{is_expired}
use secure_file_service.System.Invariant.{IsSound}
use secure_file_service.Application.Revocation.{HasUniqueIds}
use secure_file_service.Application.World.{World}
use secure_file_service.Persistence.FileRepository.{optional_entity}
use secure_file_service.Security.Signer.{verify, UrlSigner}
use secure_file_service.Domain.Entities.{
  DownloadTarget, RequestContext, FileRecord, available, status_value,
}
use secure_file_service.Prelude.Results.{err, Result, Result-cases, ok}
use secure_file_service.Storage.{StorageLaws, FileStorage}
use secure_file_service.Persistence.Models.{
  audit_model, file_status-status_value, file_status, AuditEventModel, file_entity, FileModel,
}
use secure_file_service.Persistence.Session.{Found-Occurs, Found, Occurs, SessionLaws, Session}
use secure_file_service.Exec.{run-cases, Outcome-ok}
use secure_file_service.Application.Download.{
  downloaded_event, check_signature, check_expiry, find_file, check_stored, deliver, resolve,
  SignedRequest, DownloadDraws,
}
use secure_file_service.Persistence.FileRepository
use secure_file_service.Persistence.AuditRepository
use secure_file_service.Prelude.{
  ◌⊎◌, subst, Option, sym, text_eq_iff, false, Option-cases, text_eq, [], ◌∙◌, arith, ap, ◌∷◌, true,
  List, Text, Bool, ◌≡◌, none, inl, inr,
}

-- The exception is one that a call of the download has raised: the query of the file, the insertion
-- of the event behind it, the commit behind that, the lookup of the file's key in the storage, or the
-- path of the key.
abbrev pub Trouble :
    {S F : Type 0} → Session S → FileStorage F → Text → Text → World S F → Exception → Type 0
Trouble {S} {F} db fs id key w e =
    let s = (db.get_file id w.session).1 in
    ((t : S) × (db.get_file id w.session ≡ (err e, t)))
    ⊎ ((event : AuditEventModel) × (t : S) × (db.add_event event s ≡ (err e, t)))
    ⊎ ((event : AuditEventModel) × (t : S) × (db.commit (db.add_event event s).1 ≡ (err e, t)))
    ⊎ ((g : F) × (fs.exists key w.storage ≡ (err e, g)))
    ⊎ (fs.path_for key ≡ err e)

-- The run of a download returns a target, or raises what one of its calls has raised.
abbrev pub Answered :
    {S F : Type 0}
    → Session S
    → FileStorage F
    → Text
    → Text
    → World S F
    → Result Exception DownloadTarget × World S F
    → Type 0
Answered {S} {F} db fs id key w p =
    ((target : DownloadTarget) × (x : World S F) × (p ≡ (ok target, x)))
    ⊎ ((e : Exception) × (x : World S F) × (p ≡ (err e, x)) × Trouble db fs id key w e)

Found-none :
    (p : FileModel → Bool) (xs : List FileModel) (m : FileModel)
    → Occurs m xs
    → p m ≡ true
    → Found p xs none
    → ⊥
Found-none p (x ∷ xs) m (inl same) fits (other, rest) = ground (arith, same, fits, other)
Found-none p (x ∷ xs) m (inr later) fits (other, rest) = Found-none p xs m later fits rest
Found-none p [] m there fits h = there

-- An available row can be read.
file_entity-available :
    (m : FileModel)
    → m.status ≡ status_value available
    → (file : FileRecord) × (file_entity m ≡ ok file)
      × (file.status ≡ available)
      × (file.storage_key ≡ m.storage_key)
unfolding file_entity
file_entity-available m is =
    let read : file_status m.status ≡ ok available =
      ap file_status is ∙ file_status-status_value available in
    elim (Result-cases (file_entity m)) [
      | inl (file, e) ↦ (file, e, ground (arith, e, read), ground (arith, e, read))
      | inr (r, e) ↦ absurd (ground (arith, e, read))
    ]

module _ {S F : Type 0} (db : Session S) (laws : SessionLaws db) (fs : FileStorage F)
    {sha256 : Text → Text} (storage_laws : StorageLaws sha256 fs) (hmac_sha256 : Text → Text → Text)
    (urlsafe_b64encode : Text → Text) (signer : UrlSigner) where
  -- A query that answers finds the file.
  find_file-returns :
      (req : SignedRequest) (w : World S F) (m : FileModel) (r : Option FileModel) (s : S)
      → db.get_file req.file_id w.session ≡ (ok r, s)
      → HasUniqueIds (laws.view w.session).files
      → Occurs m (laws.view w.session).files
      → m.id ≡ req.file_id
      → m.status ≡ status_value available
      → (file : FileRecord) × (find_file db fs hmac_sha256 urlsafe_b64encode signer req w
          ≡ (ok file, record w { session = s }))
        × (file.storage_key ≡ m.storage_key)
  unfolding find_file FileRepository.get optional_entity
  find_file-returns req w m r s e unique there id is =
      let (found, same) = Outcome-ok _ _ _ r s (laws.get_file_law req.file_id w.session) e in
      let p : FileModel → Bool = λ x. text_eq x.id req.file_id in
      elim (Option-cases r) [
        | inl absent ↦ absurd (
            Found-none p (laws.view w.session).files m there ((text_eq_iff m.id req.file_id).1 id)
              (rw absent at found))
        | inr (n, present) ↦
            let (fits, listed) =
              Found-Occurs p (laws.view w.session).files n (rw present at found) in
            let one : n ≡ m =
              unique n m listed there ((text_eq_iff n.id req.file_id).0 fits ∙ sym id) in
            let (file, read, status, key) =
              file_entity-available n (ap (λ (x : FileModel). x.status) one ∙ is) in
            (
              file,
              ground (arith, e, present, read, status),
              key ∙ ap (λ (x : FileModel). x.storage_key) one,
            )
      ]

  find_file-raises :
      (req : SignedRequest) (w : World S F) (r : Exception) (s : S)
      → db.get_file req.file_id w.session ≡ (err r, s)
      → find_file db fs hmac_sha256 urlsafe_b64encode signer req w
        ≡ (err r, record w { session = s })
  unfolding find_file FileRepository.get
  find_file-raises req w r s e = ground (arith, e)

  -- The event and the path: the delivery returns, or one of its three calls raises what it raises.
  deliver-Answered :
      (req : SignedRequest) (context : RequestContext) (draws : DownloadDraws) (file : FileRecord)
      (v w : World S F)
      → (db.get_file req.file_id v.session).1 ≡ w.session
      → Answered db fs req.file_id file.storage_key v
          (deliver db fs hmac_sha256 urlsafe_b64encode signer req context draws file w)
  unfolding deliver AuditRepository.add
  deliver-Answered req context draws file v w behind =
      let event = audit_model (downloaded_event req context draws file) in
      elim (run-cases (db.add_event event w.session)) [
        | inr (r, s, added) ↦ inr (
          r,
          record w { session = s },
          ground (arith, added),
          inr (inl (event, s, ap (λ z. db.add_event event z) behind ∙ added)),
        )
        | inl (u, s, added) ↦ elim (run-cases (db.commit s)) [
          | inr (r, t, done) ↦ inr (
            r,
            record w { session = t },
            ground (arith, added, done),
            inr (
                inr (
                  inl (
                    event,
                    t,
                    ap (λ z. db.commit (db.add_event event z).1) behind
                        ∙ ap (λ p. db.commit p.1) added
                        ∙ done,
                  ))),
          )
          | inl (v, t, done) ↦
              let run =
                deliver db fs hmac_sha256 urlsafe_b64encode signer req context draws file w in
              elim (Result-cases (fs.path_for file.storage_key)) [
                | inl (p, path) ↦ elim (run-cases run) [
                  | inl (target, x, e) ↦ inl (target, x, e)
                  | inr (r, x, e) ↦ absurd (ground (arith, e, added, done, path))
                ]
                | inr (r, path) ↦
                    inr (r, run.1, ground (arith, added, done, path), inr (inr (inr (inr path))))
              ]
        ]
      ]

  -- In a consistent state a request whose signature verifies, that is in time and that names an
  -- available file is served, or one of the calls of the download raises, and so does it.
  pub resolve-Answered :
      (req : SignedRequest) (context : RequestContext) (draws : DownloadDraws) (w : World S F)
      (m : FileModel)
      → IsSound db laws fs storage_laws w
      → verify hmac_sha256 urlsafe_b64encode signer req.file_id req.link_id req.expires_at
          req.key_id req.sig
        ≡ ok tt
      → is_expired req.expires_at draws.now ≡ false
      → Occurs m (laws.view w.session).durable_files
      → m.id ≡ req.file_id
      → m.status ≡ status_value available
      → Answered db fs req.file_id m.storage_key w
          (resolve db fs hmac_sha256 urlsafe_b64encode signer req context draws w)
  unfolding resolve check_signature check_expiry check_stored
  resolve-Answered req context draws w m sound signed in_time there id is =
      let listed : Occurs m (laws.view w.session).files = rw sound.clean there in
      let unique : HasUniqueIds (laws.view w.session).files = rw sound.clean sound.consistent.ids in
      let (content, stored, size, hash) = sound.consistent.backed m there is in
      elim (run-cases (db.get_file req.file_id w.session)) [
        | inr (r, s, e) ↦
            let raised = find_file-raises req w r s e in
            inr (r, record w { session = s }, ground (arith, signed, in_time, raised), inl (s, e))
        | inl (r, s, e) ↦
            let (file, found, key) = find_file-returns req w m r s e unique listed id is in
            elim (run-cases (fs.exists m.storage_key w.storage)) [
              | inr (r, f, looked) ↦ inr (
                r,
                record w { session = s; storage = f },
                ground (arith, signed, in_time, found, key, looked),
                inr (inr (inr (inl (f, looked)))),
              )
              | inl (present, f, looked) ↦
                  let law =
                    Outcome-ok _ _ _ present f (storage_laws.exists_law m.storage_key w.storage)
                      looked in
                  let yes : present ≡ true = ground (arith, law, stored) in
                  let y : World S F = record w { session = s; storage = f } in
                  let run : resolve db fs hmac_sha256 urlsafe_b64encode signer req context draws w
                      ≡ deliver db fs hmac_sha256 urlsafe_b64encode signer req context draws file
                          y =
                    ground (arith, signed, in_time, found, key, looked, yes) in
                  rw run (
                    subst
                      (λ k. Answered db fs req.file_id k w (
                        deliver db fs hmac_sha256 urlsafe_b64encode signer req context draws file
                          y))
                      key (deliver-Answered req context draws file w y (ap (λ p. p.1) e)))
            ]
      ]
