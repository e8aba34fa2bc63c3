-- ===== src/Application/Upload/Replay.antt =====
-- What an upload that is answered as a replay returns.
use secure_file_service.Exec.{Outcome-ok, run-cases}
use secure_file_service.Persistence.Models.{file_entity, FileModel}
use secure_file_service.Domain.Errors.{Exception}
use secure_file_service.Prelude.Results.{Result-cases, ok, Result}
use secure_file_service.Application.World.{World}
use secure_file_service.Persistence.FileRepository.{has_owner_and_key, optional_entity}
use secure_file_service.Domain.Entities.{StoredObject, FileRecord}
use secure_file_service.Application.Upload.{
  err, new_record, execute, persist, store_new, UploadFileResult, UploadDraws, discard, proceed,
  on_failure, replay, UploadFileCommand, find_existing,
}
use secure_file_service.Storage.{payload, StorageLaws, FileStorage}
use secure_file_service.Persistence.Session.{Found-Occurs, Occurs, View, SessionLaws, Session}
use secure_file_service.Application.Upload.Steps.{
  execute-unwritten, execute-written, proceed-found, proceed-absent, store_new-err,
}
use secure_file_service.Domain.Errors.{integrity_error}
use secure_file_service.Prelude.{
  subst, [], ap, option_eq, ◌∙◌, text_eq, text_eq, &&_parts, sym, none, text_eq_iff, inr, inl, ◌∷◌,
  length, arith, true, some, ◌≡◌, ℕ, Option, Text,
}
use secure_file_service.Persistence.FileRepository

option_eq_sound : (a : Option Text) (b : Text) → option_eq a (some b) ≡ true → a ≡ some b
option_eq_sound none b h = absurd (ground (arith, h))
option_eq_sound (some a) b h = ap (λ z. some z) ((text_eq_iff a b).0 h)

module _ {S F : Type 0} (db : Session S) (laws : SessionLaws db) (fs : FileStorage F) where
  -- The file is a row that is seen, of the owner and with the key.
  abbrev pub IsEarlier : Text → Option Text → FileRecord → View → Type 0
  IsEarlier owner_id key file v =
      (m : FileModel) × Occurs m v.files
      × (m.owner_id ≡ owner_id)
      × (m.idempotency_key ≡ key)
      × (file_entity m ≡ ok file)

  find_existing-IsEarlier :
      (owner_id : Text) (key : Option Text) (w x : World S F) (file : FileRecord)
      → find_existing db fs owner_id key w ≡ (ok (some file), x)
      → IsEarlier owner_id key file (laws.view x.session)
  unfolding find_existing FileRepository.find_by_idempotency_key optional_entity
  find_existing-IsEarlier owner_id none w x file e = absurd (ground (arith, e))
  find_existing-IsEarlier owner_id (some []) w x file e = absurd (ground (arith, e))
  find_existing-IsEarlier owner_id (some (c ∷ k)) w x file e =
      let p = has_owner_and_key owner_id (c ∷ k) in
      elim (run-cases (db.first_file p w.session)) [
        | inr (r, t, f) ↦ absurd (ground (arith, e, f))
        | inl (none, t, f) ↦ absurd (ground (arith, e, f))
        | inl (some m, t, f) ↦
            let (found, same) = Outcome-ok _ _ _ (some m) t (laws.first_file_law p w.session) f in
            let (fits, there) = Found-Occurs p (laws.view w.session).files m found in
            let (owner, keyed) =
              &&_parts (text_eq m.owner_id owner_id) (option_eq m.idempotency_key (some (c ∷ k)))
                fits in
            elim (Result-cases (file_entity m)) [
              | inr (r, read) ↦ absurd (ground (arith, e, f, read))
              | inl (g, read) ↦
                  let one : x.session ≡ t = ground (arith, e, f, read) in
                  let is : file ≡ g = ground (arith, e, f, read) in
                  (
                    m,
                    rw (one, same) there,
                    (text_eq_iff m.owner_id owner_id).0 owner,
                    option_eq_sound m.idempotency_key (c ∷ k) keyed,
                    read ∙ ap (λ z. ok z) (sym is),
                  )
            ]
      ]

  -- A run whose replays return a seen row of the caller with the key of the command and with the
  -- size and the hash of the object.
  abbrev Replays :
      UploadFileCommand → StoredObject → Result Exception UploadFileResult × World S F → Type 0
  Replays cmd o (ok r, x) =
      r.replayed ≡ true
      → IsEarlier cmd.owner_id cmd.idempotency_key r.file (laws.view x.session)
        × (r.file.sha256 ≡ o.sha256)
        × (r.file.size_bytes ≡ o.size_bytes)
  Replays cmd o (err e, x) = Unit

  replay-Replays :
      (cmd : UploadFileCommand) (file : FileRecord) (o : StoredObject) (w : World S F)
      → IsEarlier cmd.owner_id cmd.idempotency_key file (laws.view w.session)
      → Replays cmd o (replay db fs file o w)
  unfolding replay
  replay-Replays cmd file o w earlier = elim (run-cases (replay db fs file o w)) [
    | inl (r, x, e) ↦
        let one : x.session ≡ w.session = ground (arith, e) in
        let is : r.file ≡ file = ground (arith, e) in
        let sha : file.sha256 ≡ o.sha256 = ground (arith, e, text_eq_iff file.sha256 o.sha256) in
        let size : file.size_bytes ≡ o.size_bytes = ground (arith, e) in
        rw e (λ again. rw (one, is) (earlier, sha, size))
    | inr (r, x, e) ↦ rw e tt
  ]

  on_failure-Replays :
      (cmd : UploadFileCommand) (o : StoredObject) (e : Exception) (w : World S F)
      → Replays cmd o (on_failure db fs cmd o e w)
  unfolding on_failure discard
  on_failure-Replays cmd o integrity_error w =
      let back = record w { session = db.rollback w.session } in
      elim (run-cases (find_existing db fs cmd.owner_id cmd.idempotency_key back)) [
        | inl (some file, x, e) ↦
            let run : on_failure db fs cmd o integrity_error w ≡ replay db fs file o x =
              ground (arith, e) in
            rw run (
              replay-Replays cmd file o x
                (find_existing-IsEarlier cmd.owner_id cmd.idempotency_key back x file e))
        | inl (none, x, e) ↦ ground (arith, e)
        | inr (r, x, e) ↦ ground (arith, e)
      ]
  on_failure-Replays cmd o e w = ground arith

  store_new-Replays :
      (cmd : UploadFileCommand) (draws : UploadDraws) (o : StoredObject) (w : World S F)
      → Replays cmd o (store_new db fs cmd draws o w)
  store_new-Replays cmd draws o w =
      elim (run-cases (persist db fs cmd draws (new_record cmd draws o) w)) [
        | inl (u, x, e) ↦ unfold store_new in ground (arith, e)
        | inr (r, x, e) ↦
            rw (store_new-err db fs cmd draws o w x r e) (on_failure-Replays cmd o r x)
      ]

  proceed-Replays :
      (cmd : UploadFileCommand) (draws : UploadDraws) (o : StoredObject) (w : World S F)
      → Replays cmd o (proceed db fs cmd draws o w)
  unfolding proceed
  proceed-Replays cmd draws o w =
      elim (run-cases (find_existing db fs cmd.owner_id cmd.idempotency_key w)) [
        | inl (some file, x, e) ↦ rw (proceed-found db fs cmd draws o w x file e) (
            replay-Replays cmd file o x
              (find_existing-IsEarlier cmd.owner_id cmd.idempotency_key w x file e))
        | inl (none, x, e) ↦
            rw (proceed-absent db fs cmd draws o w x e) (store_new-Replays cmd draws o x)
        | inr (r, x, e) ↦ ground (arith, e)
      ]

  -- An upload that is answered as a replay returns a file that the session sees at the end of the
  -- call: a row of the caller with the idempotency key of the command, whose size and SHA-256 are those
  -- of the bytes that the call sent.
  pub execute-Replayed :
      {sha256 : Text → Text} (storage_laws : StorageLaws sha256 fs) (max : ℕ)
      (cmd : UploadFileCommand) (draws : UploadDraws) (w x : World S F) (r : UploadFileResult)
      → execute db fs max cmd draws w ≡ (ok r, x)
      → r.replayed ≡ true
      → IsEarlier cmd.owner_id cmd.idempotency_key r.file (laws.view x.session)
        × (r.file.size_bytes ≡ length (payload cmd.stream))
        × (r.file.sha256 ≡ sha256 (payload cmd.stream))
  execute-Replayed {sha256} storage_laws max cmd draws w x r run again =
      elim (run-cases (fs.write cmd.stream max w.storage)) [
        | inl (o, f, e) ↦
            let (keyed, low, high, size, hash, put) =
              Outcome-ok _ _ _ o f (storage_laws.write_law cmd.stream max w.storage) e in
            let ended = sym (execute-written db fs max cmd draws w o f e) ∙ run in
            let (earlier, sha, bytes) =
              subst (λ p. Replays cmd o p) ended
                (proceed-Replays cmd draws o (record w { storage = f })) again in
            (earlier, bytes ∙ size, sha ∙ hash)
        | inr (q, f, e) ↦
            let (y, raised, same) = execute-unwritten db fs max cmd draws w q f e in
            absurd (ground (arith, raised, run))
      ]
