-- ===== src/System/Soundness.antt =====
-- Every request keeps the database and the storage consistent, whether its handler returns or raises.
use secure_file_service.Application.Download.{resolve}
use secure_file_service.Application.Download
use secure_file_service.Domain.Entities.{status_value, StoredObject}
use secure_file_service.Application.CreateLink.{LinkSettings}
use secure_file_service.Security.Signer.{UrlSigner}
use secure_file_service.Application.Upload.{UploadDraws, UploadFileCommand, new_record, persist}
use secure_file_service.Exec.{Outcome-err, Outcome-ok, run-cases}
use secure_file_service.Persistence.Models.{file_model, file_entity-fields, FileModel}
use secure_file_service.Application.DeleteFile.{DeleteDraws, DeleteFileCommand}
use secure_file_service.Application.World.{World}
use secure_file_service.Prelude.Results.{ok, err}
use secure_file_service.Domain.Errors.{Exception}
use secure_file_service.Prelude.{
  ℕ, ◌⊎◌, ◌∙◌, sym, ap, inr, arith, inl, refl, Bool-cases, ◌≢◌, false, ◌≡◌, List, Text,
}
use secure_file_service.Storage.{payload, StorageLaws, FileStorage}
use secure_file_service.Persistence.Session.{Occurs, SameDurable, View, SessionLaws, Session}
use secure_file_service.System.{
  Request, upload, create_link, download, delete_file, after, with_session,
}
use secure_file_service.System.Invariant.{
  IsConsistent, IsSound, DrawsFresh, IsConsistent-same, IsConsistent-append, IsConsistent-marked,
}
use secure_file_service.Application.Upload
use secure_file_service.Application.CreateLink
use secure_file_service.Application.DeleteFile

module _ {S F : Type 0} (db : Session S) (laws : SessionLaws db) (fs : FileStorage F)
    {sha256 : Text → Text} (storage_laws : StorageLaws sha256 fs) where
  -- Closing a session leaves the committed rows.
  closed-IsSound :
      (x : World S F)
      → IsConsistent db laws fs storage_laws (laws.view x.session).durable_files x.storage
      → IsSound db laws fs storage_laws (record x { session = db.rollback x.session })
  closed-IsSound x c = record {
    clean = rw (laws.rollback_law x.session) refl;
    consistent = rw (laws.rollback_law x.session) c;
  }

  -- Deleting the object of a row keeps the objects of the others.
  delete-others :
      (files : List FileModel) (m n : FileModel) (f : F)
      → IsConsistent db laws fs storage_laws files f
      → Occurs m files
      → Occurs n files
      → n.id ≢ m.id
      → storage_laws.stored (fs.delete m.storage_key f).1 n.storage_key
        ≡ storage_laws.stored f n.storage_key
  delete-others files m n f c hm hn apart =
      elim (Bool-cases (storage_laws.same_key m.storage_key n.storage_key)) [
        | inl same ↦
            let keys =
              storage_laws.same_key_eq m.storage_key n.storage_key (c.keyed m hm) (c.keyed n hn)
                same in
            absurd (apart (ap (λ (x : FileModel). x.id) (c.keys n m hn hm (sym keys))))
        | inr differ ↦ elim (run-cases (fs.delete m.storage_key f)) [
          | inl (u, g, e) ↦ ground (
            arith,
            e,
            differ,
            Outcome-ok _ _ _ u g (storage_laws.delete_law m.storage_key f) e n.storage_key,
          )
          | inr (r, g, e) ↦ ground (
            arith,
            e,
            Outcome-err _ _ _ r g (storage_laws.delete_law m.storage_key f) e n.storage_key,
          )
        ]
      ]

  -- Deleting an object that is not the row's.
  delete-apart :
      (key k : Text) (f : F)
      → storage_laws.same_key key k ≡ false
      → storage_laws.stored (fs.delete key f).1 k ≡ storage_laws.stored f k
  delete-apart key k f differ = elim (run-cases (fs.delete key f)) [
    | inl (u, g, e) ↦
        ground (arith, e, differ, Outcome-ok _ _ _ u g (storage_laws.delete_law key f) e k)
    | inr (r, g, e) ↦ ground (arith, e, Outcome-err _ _ _ r g (storage_laws.delete_law key f) e k)
  ]

  pub DeleteFile-IsConsistent :
      (cmd : DeleteFileCommand) (draws : DeleteDraws) (w : World S F)
      → IsSound db laws fs storage_laws w
      → IsConsistent db laws fs storage_laws
          (laws.view (DeleteFile.execute db fs cmd draws w).1.session).durable_files
          (DeleteFile.execute db fs cmd draws w).1.storage
  DeleteFile-IsConsistent cmd draws w sound =
      elim (DeleteFile.Ends.execute-Ends db laws fs storage_laws cmd draws w) [
        | inl (same, storage) ↦ rw (same.0, storage) sound.consistent
        | inr (file, m, there, owner, entity, marked, storage) ↦
            let files = (laws.view w.session).files in
            let c : IsConsistent db laws fs storage_laws files w.storage =
              rw sound.clean sound.consistent in
            let fields = file_entity-fields m file entity in
            let g = (DeleteFile.execute db fs cmd draws w).1.storage in
            let kept : (n : FileModel)
                → Occurs n files
                → n.id ≢ file.id
                → storage_laws.stored g n.storage_key
                  ≡ storage_laws.stored w.storage n.storage_key =
              λ n hn apart. elim storage [
                | inl same ↦ ap (λ f. storage_laws.stored f n.storage_key) same
                | inr gone ↦
                    ap (λ f. storage_laws.stored f n.storage_key)
                      (gone ∙ ap (λ k. (fs.delete k w.storage).1) fields.2)
                    ∙ delete-others files m n w.storage c there hn (λ e. apart (e ∙ sym fields.0))
              ] in
            rw marked.0 (
              IsConsistent-marked db laws fs storage_laws files file.id draws.now w.storage g c
                kept)
      ]

  -- The storage after a failed or a taken-back upload.
  Kept-IsConsistent :
      (key : Text) (files : List FileModel) (f g h : F)
      → IsConsistent db laws fs storage_laws files f
      → ((m : FileModel) → Occurs m files → storage_laws.same_key key m.storage_key ≡ false)
      → ((m : FileModel)
          → Occurs m files
          → storage_laws.stored g m.storage_key ≡ storage_laws.stored f m.storage_key)
      → (h ≡ g) ⊎ (h ≡ (fs.delete key g).1)
      → IsConsistent db laws fs storage_laws files h
  Kept-IsConsistent key files f g h c fresh same (inl kept) =
      rw kept (IsConsistent-same db laws fs storage_laws files f g same c)
  Kept-IsConsistent key files f g h c fresh same (inr gone) = rw gone (
      IsConsistent-same db laws fs storage_laws files f (fs.delete key g).1
        (λ m there. delete-apart key m.storage_key g (fresh m there) ∙ same m there) c)

  -- If the transaction of the upload raises, it has left nothing durable: its commit is not one that
  -- takes effect and raises all the same.
  abbrev pub IsDecided : ℕ → UploadFileCommand → UploadDraws → World S F → Type 0
  IsDecided max cmd draws w =
      (o : StoredObject) (f : F) (r : Exception) (x : World S F)
      → fs.write cmd.stream max w.storage ≡ (ok o, f)
      → persist db fs cmd draws (new_record cmd draws o)
          (Upload.Ends.at_persist db laws fs cmd (record w { storage = f }))
        ≡ (err r, x)
      → SameDurable
          (laws.view (Upload.Ends.at_persist db laws fs cmd (record w { storage = f })).session)
          (laws.view x.session)

  pub Upload-IsConsistent :
      (max : ℕ) (cmd : UploadFileCommand) (draws : UploadDraws) (w : World S F)
      → DrawsFresh db laws fs storage_laws cmd.stream max w
      → IsDecided max cmd draws w
      → IsSound db laws fs storage_laws w
      → IsConsistent db laws fs storage_laws
          (laws.view (Upload.execute db fs max cmd draws w).1.session).durable_files
          (Upload.execute db fs max cmd draws w).1.storage
  unfolding new_record file_model status_value
  Upload-IsConsistent max cmd draws w fresh decided sound =
      let files = (laws.view w.session).durable_files in
      elim (Upload.Ends.execute-Ends db laws fs max cmd draws w) [
        | inl (r, f, e, session, storage) ↦
            let law = Outcome-err _ _ _ r f (storage_laws.write_law cmd.stream max w.storage) e in
            rw (session, storage)
              (IsConsistent-same db laws fs storage_laws files w.storage f
                (λ m there. law m.storage_key (sound.consistent.keyed m there)) sound.consistent)
        | inr (o, f, e, ends) ↦
            let (is_new, some_bytes, bounded, size, hash, law) =
              Outcome-ok _ _ _ o f (storage_laws.write_law cmd.stream max w.storage) e in
            let apart = λ (m : FileModel) (there : Occurs m files). fresh o f m e there in
            let same : (m : FileModel)
                → Occurs m files
                → storage_laws.stored f m.storage_key
                  ≡ storage_laws.stored w.storage m.storage_key =
              λ m there.
                ground (arith, law m.storage_key (sound.consistent.keyed m there), apart m there) in
            elim ends [
              | inl (durable, kept) ↦ rw durable.0 (
                  Kept-IsConsistent o.storage_key files w.storage f
                    (Upload.execute db fs max cmd draws w).1.storage sound.consistent apart same
                    kept)
              | inr (inr (d, same_view, later, kept)) ↦
                  let before = decided o f d.raised d.after e d.run in
                  let durable : (laws.view
                        (Upload.execute db fs max cmd draws w).1.session).durable_files
                      ≡ files =
                    later.0 ∙ before.0 ∙ ap (λ (v : View). v.durable_files) same_view in
                  rw durable (
                    Kept-IsConsistent o.storage_key files w.storage f
                      (Upload.execute db fs max cmd draws w).1.storage sound.consistent apart same
                      kept)
              | inr (inl (added, storage, unclashing)) ↦
                  rw (added, storage, sound.clean)
                    (IsConsistent-append db laws fs storage_laws files
                      (file_model (new_record cmd draws o)) f
                      (IsConsistent-same db laws fs storage_laws files w.storage f same
                        sound.consistent)
                      (rw sound.clean at unclashing) is_new
                      (
                        payload cmd.stream,
                        ground (
                          arith,
                          law o.storage_key is_new,
                          storage_laws.same_key_refl o.storage_key,
                        ),
                        size,
                        hash,
                      ))
            ]
      ]

module _ {S F : Type 0} (db : Session S) (laws : SessionLaws db) (fs : FileStorage F)
    {sha256 : Text → Text} (storage_laws : StorageLaws sha256 fs) (hmac_sha256 : Text → Text → Text)
    (urlsafe_b64encode : Text → Text) (signer : UrlSigner) (settings : LinkSettings)
    (max_upload_bytes : ℕ) where
  -- An upload draws a fresh name, and its commit is not in doubt; the other requests need nothing.
  abbrev pub IsFresh : Request → World S F → Type 0
  IsFresh (upload cmd draws) w =
      DrawsFresh db laws fs storage_laws cmd.stream max_upload_bytes w
      × IsDecided db laws fs storage_laws max_upload_bytes cmd draws w
  IsFresh (create_link cmd draws) w = Unit
  IsFresh (download req context draws) w = Unit
  IsFresh (delete_file cmd draws) w = Unit

  pub after-IsSound :
      (req : Request) (w : World S F)
      → IsFresh req w
      → IsSound db laws fs storage_laws w
      → IsSound db laws fs storage_laws
          (after db fs hmac_sha256 urlsafe_b64encode signer settings max_upload_bytes req w)
  unfolding after with_session
  after-IsSound (upload cmd draws) w (fresh, decided) sound =
      closed-IsSound db laws fs storage_laws (Upload.execute db fs max_upload_bytes cmd draws w).1 (
        Upload-IsConsistent db laws fs storage_laws max_upload_bytes cmd draws w fresh decided
          sound)
  after-IsSound (create_link cmd draws) w fresh sound =
      let (same, storage) =
        CreateLink.Ends.execute-files db laws hmac_sha256 urlsafe_b64encode signer settings cmd
          draws w sound.clean in
      closed-IsSound db laws fs storage_laws
        (CreateLink.execute db hmac_sha256 urlsafe_b64encode signer settings cmd draws w).1
        (rw (same, storage) sound.consistent)
  after-IsSound (download req context draws) w fresh sound =
      let (same, storage) =
        Download.Ends.resolve-files db fs hmac_sha256 urlsafe_b64encode signer laws storage_laws req
          context draws w sound.clean in
      closed-IsSound db laws fs storage_laws
        (resolve db fs hmac_sha256 urlsafe_b64encode signer req context draws w).1
        (rw (same, storage) sound.consistent)
  after-IsSound (delete_file cmd draws) w fresh sound =
      closed-IsSound db laws fs storage_laws (DeleteFile.execute db fs cmd draws w).1
        (DeleteFile-IsConsistent db laws fs storage_laws cmd draws w sound)

  -- The states that sequences of requests reach.
  pub data Reach (start : World S F) : World S F → Type 0 where
    here : Reach start start
    next :
        (w : World S F) (req : Request)
        → Reach start w
        → IsFresh req w
        → Reach start
            (after db fs hmac_sha256 urlsafe_b64encode signer settings max_upload_bytes req w)

  pub Reach-IsSound :
      (start w : World S F)
      → IsSound db laws fs storage_laws start
      → Reach start w
      → IsSound db laws fs storage_laws w
  Reach-IsSound start _ sound here = sound
  Reach-IsSound start _ sound (next w req before fresh) =
      after-IsSound req w fresh (Reach-IsSound start w sound before)
