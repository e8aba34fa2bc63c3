-- ===== src/Application/Upload/Effects.antt =====
-- What an upload leaves behind in the database and in the storage, on every branch.
use secure_file_service.Persistence.FileRepository.{has_owner_and_key}
use secure_file_service.Prelude.{
  ◌++◌, [], ◌∷◌, ◌⊎◌, inr, inl, text_eq_iff, ◌≡◌, Text, arith, Option, none, some, true, false,
}
use secure_file_service.Prelude.Results.{Result}
use secure_file_service.Exec.{Outcome, run-cases}
use secure_file_service.Domain.Errors.{Exception, integrity_error}
use secure_file_service.Domain.Entities.{FileRecord, StoredObject}
use secure_file_service.Persistence.Models.{file_model, audit_model}
use secure_file_service.Persistence.Session.{
  View, Session, SessionLaws, SameDurable, inserted, staged_event, committed,
}
use secure_file_service.Persistence.FileRepository
use secure_file_service.Persistence.AuditRepository
use secure_file_service.Storage.{FileStorage}
use secure_file_service.Application.World.{World}
use secure_file_service.Application.Upload.{
  text_or_empty, UploadFileCommand, UploadFileResult, UploadDraws, new_record, uploaded_event,
  replay, find_existing, discard, on_failure, persist,
}

module _ {S F : Type 0} (db : Session S) (laws : SessionLaws db) (fs : FileStorage F) where
  -- The view after a new file was committed.
  abbrev pub Added : UploadFileCommand → UploadDraws → FileRecord → View → View
  Added cmd draws file v =
      committed
        (staged_event (audit_model (uploaded_event cmd draws file)) (inserted (file_model file) v))

  -- What has become durable if the transaction has raised: nothing, or all of it.
  abbrev pub AddedInDoubt : UploadFileCommand → UploadDraws → FileRecord → View → View → Type 0
  AddedInDoubt cmd draws file v t = SameDurable v t ⊎ SameDurable (Added cmd draws file v) t

  pub persist-Outcome :
      (cmd : UploadFileCommand) (draws : UploadDraws) (file : FileRecord) (w : World S F)
      → Outcome
          (λ _ x.
            (laws.view x.session ≡ Added cmd draws file (laws.view w.session))
            × (x.storage ≡ w.storage))
          (λ x.
            AddedInDoubt cmd draws file (laws.view w.session) (laws.view x.session)
            × (x.storage ≡ w.storage))
          (persist db fs cmd draws file w)
  unfolding persist FileRepository.add AuditRepository.add
  persist-Outcome cmd draws file w =
      let m = file_model file in
      let n = audit_model (uploaded_event cmd draws file) in
      let law = laws.insert_file_law m w.session in
      elim (run-cases (db.insert_file m w.session)) [
        | inr (r, s, e) ↦ ground (arith, e, law)
        | inl (u, s, e) ↦
            let added = laws.add_event_law n s in
            elim (run-cases (db.add_event n s)) [
              | inr (r, t, e2) ↦ ground (arith, e, e2, law, added)
              | inl (v, t, e2) ↦ elim (run-cases (db.commit t)) [
                | inl (z, q, e3) ↦ ground (arith, e, e2, e3, law, added, laws.commit_law t)
                | inr (r, q, e3) ↦ ground (arith, e, e2, e3, law, added, laws.commit_law t)
              ]
            ]
      ]

  -- The lookup changes nothing that is durable or stored.
  pub find_existing-Outcome :
      (owner_id : Text) (key : Option Text) (w : World S F)
      → Outcome
          (λ _ x. (laws.view x.session ≡ laws.view w.session) × (x.storage ≡ w.storage))
          (λ x. SameDurable (laws.view w.session) (laws.view x.session) × (x.storage ≡ w.storage))
          (find_existing db fs owner_id key w)
  unfolding find_existing FileRepository.find_by_idempotency_key
  find_existing-Outcome owner_id key w =
      ground (arith, laws.first_file_law (has_owner_and_key owner_id (text_or_empty key)) w.session)

  -- A replay answers with the earlier file, and only if size and hash of the new bytes are its own.
  pub replay-Outcome :
      (file : FileRecord) (o : StoredObject) (w : World S F)
      → Outcome
          (λ r x.
            (x.session ≡ w.session)
            × (r.file ≡ file)
            × (r.replayed ≡ true)
            × (file.sha256 ≡ o.sha256)
            × (file.size_bytes ≡ o.size_bytes))
          (λ x. x.session ≡ w.session)
          (replay db fs file o w)
  unfolding replay
  replay-Outcome file o w = ground (arith, text_eq_iff file.sha256 o.sha256)

  pub on_failure-durable :
      (cmd : UploadFileCommand) (o : StoredObject) (e : Exception) (w : World S F)
      → Outcome
          (λ r x. SameDurable (laws.view w.session) (laws.view x.session) × (r.replayed ≡ true))
          (λ x. SameDurable (laws.view w.session) (laws.view x.session))
          (on_failure db fs cmd o e w)
  unfolding on_failure discard
  on_failure-durable cmd o integrity_error w =
      elim (run-cases (
        find_existing db fs cmd.owner_id cmd.idempotency_key
          (record w { session = db.rollback w.session }))) [
            | inl (some file, x, e) ↦ ground (
              arith,
              e,
              laws.rollback_law w.session,
              find_existing-Outcome cmd.owner_id cmd.idempotency_key
                  (record w { session = db.rollback w.session }),
              replay-Outcome file o x,
            )
            | inl (none, x, e) ↦ ground (
              arith,
              e,
              laws.rollback_law w.session,
              find_existing-Outcome cmd.owner_id cmd.idempotency_key
                  (record w { session = db.rollback w.session }),
            )
            | inr (r, x, e) ↦ ground (
              arith,
              e,
              laws.rollback_law w.session,
              find_existing-Outcome cmd.owner_id cmd.idempotency_key
                  (record w { session = db.rollback w.session }),
            )
          ]
  on_failure-durable cmd o e w = ground (arith, laws.rollback_law w.session)

  -- What an upload has made durable, from the point at which the bytes are stored.
  abbrev RecordedFor :
      UploadFileCommand
      → UploadDraws
      → StoredObject
      → World S F
      → Result Exception UploadFileResult × World S F
      → Type 0
  RecordedFor cmd draws o w =
      Outcome
        (λ r x.
          ((r.replayed ≡ true)
            × AddedInDoubt cmd draws (new_record cmd draws o) (laws.view w.session)
                (laws.view x.session))
          ⊎ ((r.replayed ≡ false)
              × SameDurable (Added cmd draws r.file (laws.view w.session)) (laws.view x.session)))
        (λ x.
          AddedInDoubt cmd draws (new_record cmd draws o) (laws.view w.session)
            (laws.view x.session))

  -- A session that has seen what was committed and has nothing pending, as a new one.
  pub record IsNew (v : View) : Type 0 where
    pub files_seen : v.files ≡ v.durable_files
    pub events_seen : v.events ≡ v.durable_events
    pub none_staged : v.staged ≡ []

  -- The committed rows have gained a row and its event.
  abbrev pub Gained : UploadFileCommand → UploadDraws → FileRecord → View → View → Type 0
  Gained cmd draws file v t =
      (t.durable_files ≡ v.durable_files ++ file_model file ∷ [])
      × (t.durable_events ≡ v.durable_events ++ audit_model (uploaded_event cmd draws file) ∷ [])

  -- What an upload has made durable: one row with its event, or nothing.
  abbrev pub Recorded :
      UploadFileCommand
      → UploadDraws
      → World S F
      → Result Exception UploadFileResult × World S F
      → Type 0
  Recorded cmd draws w =
      Outcome
        (λ r x.
          ((r.replayed ≡ true)
            × (SameDurable (laws.view w.session) (laws.view x.session)
                ⊎ ((file : FileRecord) × Gained cmd draws file (laws.view w.session)
                      (laws.view x.session))))
          ⊎ ((r.replayed ≡ false)
              × Gained cmd draws r.file (laws.view w.session) (laws.view x.session)))
        (λ x.
          SameDurable (laws.view w.session) (laws.view x.session)
          ⊎ ((file : FileRecord) × Gained cmd draws file (laws.view w.session)
                (laws.view x.session)))
