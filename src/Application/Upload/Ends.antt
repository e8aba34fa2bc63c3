-- ===== src/Application/Upload/Ends.antt =====
-- How an upload may end, for the database and the storage together: with nothing new, with the row
-- and the bytes of the new file, or with a commit that raised and has yet taken effect.
use secure_file_service.Persistence.Models.{file_model}
use secure_file_service.Exec.{Outcome-ok, Outcome-err, run-cases}
use secure_file_service.Prelude.Results.{err, ok}
use secure_file_service.Domain.Errors.{Exception}
use secure_file_service.Application.World.{World}
use secure_file_service.Domain.Entities.{StoredObject, FileRecord}
use secure_file_service.Storage.{FileStorage}
use secure_file_service.Persistence.Session.{Clashes, SameDurable, SessionLaws, Session}
use secure_file_service.Domain.Errors.{integrity_error}
use secure_file_service.Prelude.{
  subst, sym, refl, ap, ◌∙◌, none, inr, some, inl, All, arith, ◌⊎◌, ℕ, Text, ◌≡◌,
}
use secure_file_service.Persistence.FileRepository
use secure_file_service.Application.Upload.Steps.{
  proceed-absent, proceed-found, persist-storage, find_existing-storage, execute-written,
}
use secure_file_service.Application.Upload.Effects.{
  Added, persist-Outcome, find_existing-Outcome, replay-Outcome, on_failure-durable,
}
use secure_file_service.Application.Upload.{
  new_record, UploadDraws, UploadFileCommand, execute, proceed, store_new, on_failure, replay,
  persist, find_existing, discard,
}

module _ {S F : Type 0} (db : Session S) (laws : SessionLaws db) (fs : FileStorage F) where
  -- The storage is as it was, or it is what the deletion of the object leaves.
  abbrev pub Kept : Text → F → F → Type 0
  Kept key f g = (g ≡ f) ⊎ (g ≡ (fs.delete key f).1)

  persist_unclashing :
      (cmd : UploadFileCommand) (draws : UploadDraws) (file : FileRecord) (w x : World S F)
      → persist db fs cmd draws file w ≡ (ok tt, x)
      → All (λ m. ¬ Clashes (file_model file) m) (laws.view w.session).files
  unfolding persist FileRepository.add
  persist_unclashing cmd draws file w x h =
      elim (run-cases (db.insert_file (file_model file) w.session)) [
        | inl (u, s, e) ↦
            (Outcome-ok _ _ _ u s (laws.insert_file_law (file_model file) w.session) e).1
        | inr (r, s, e) ↦ absurd (ground (arith, e, h))
      ]

  replay-storage :
      (file : FileRecord) (o : StoredObject) (w : World S F)
      → (replay db fs file o w).1.storage ≡ (fs.delete o.storage_key w.storage).1
  unfolding replay
  replay-storage file o w = ground arith

  on_failure-Kept :
      (cmd : UploadFileCommand) (o : StoredObject) (e : Exception) (w : World S F)
      → Kept o.storage_key w.storage (on_failure db fs cmd o e w).1.storage
  unfolding on_failure discard
  on_failure-Kept cmd o integrity_error w =
      let back = record w { session = db.rollback w.session } in
      let same = find_existing-storage db fs cmd.owner_id cmd.idempotency_key back in
      elim (run-cases (find_existing db fs cmd.owner_id cmd.idempotency_key back)) [
        | inl (some file, x, e) ↦ inr (ground (arith, e, same, replay-storage file o x))
        | inl (none, x, e) ↦ inr (ground (arith, e, same))
        | inr (r, x, e) ↦ inl (ground (arith, e, same))
      ]
  on_failure-Kept cmd o e w = inr (ground arith)

  -- The transaction has raised, and has yet made the row and the event durable.
  pub record IsInDoubt (cmd : UploadFileCommand) (draws : UploadDraws) (o : StoredObject)
      (y : World S F) : Type 0 where
    pub raised : Exception
    pub after : World S F
    pub run : persist db fs cmd draws (new_record cmd draws o) y ≡ (err raised, after)
    pub done :
        SameDurable
          (Added db laws fs cmd draws (new_record cmd draws o) (laws.view y.session))
          (laws.view after.session)

  -- How the call ends from the point at which the bytes are stored: with nothing new, with the row
  -- and its bytes, or in doubt, after the transaction that starts at `y`.
  abbrev pub Ends :
      UploadFileCommand → UploadDraws → StoredObject → World S F → World S F → World S F → Type 0
  Ends cmd draws o y w x =
      (SameDurable (laws.view w.session) (laws.view x.session)
        × Kept o.storage_key w.storage x.storage)
      ⊎ ((laws.view x.session
            ≡ Added db laws fs cmd draws (new_record cmd draws o) (laws.view w.session))
          × (x.storage ≡ w.storage)
          × All (λ m. ¬ Clashes (file_model (new_record cmd draws o)) m)
              (laws.view w.session).files)
      ⊎ ((d : IsInDoubt cmd draws o y) × (laws.view y.session ≡ laws.view w.session)
          × SameDurable (laws.view d.after.session) (laws.view x.session)
          × Kept o.storage_key w.storage x.storage)

  store_new-Ends :
      (cmd : UploadFileCommand) (draws : UploadDraws) (o : StoredObject) (w : World S F)
      → Ends cmd draws o w w (store_new db fs cmd draws o w).1
  unfolding store_new
  store_new-Ends cmd draws o w =
      let file = new_record cmd draws o in
      let same = persist-storage db fs cmd draws file w in
      let law = persist-Outcome db laws fs cmd draws file w in
      elim (run-cases (persist db fs cmd draws file w)) [
        | inl (u, x, e) ↦ inr (
            inl (
              ground (arith, e, law),
              ground (arith, e, same),
              persist_unclashing cmd draws file w x e,
            ))
        | inr (r, x, e) ↦
            let ending : (store_new db fs cmd draws o w).1 ≡ (on_failure db fs cmd o r x).1 =
              ground (arith, e) in
            let durable : SameDurable (laws.view x.session)
                (laws.view (on_failure db fs cmd o r x).1.session) =
              ground (arith, on_failure-durable db laws fs cmd o r x) in
            let kept : Kept o.storage_key w.storage (on_failure db fs cmd o r x).1.storage =
              subst (λ f. Kept o.storage_key f (on_failure db fs cmd o r x).1.storage)
                (rw e at same) (on_failure-Kept cmd o r x) in
            elim (Outcome-err _ _ _ r x law e).0 [
              | inl nothing ↦ rw ending (inl (ground (arith, durable, nothing), kept))
              | inr done ↦ rw ending (
                  inr (
                    inr (
                      record { raised = r; after = x; run = e; done = done },
                      refl,
                      durable,
                      kept,
                    )))
            ]
      ]

  proceed-raised :
      (cmd : UploadFileCommand) (draws : UploadDraws) (o : StoredObject) (w x : World S F)
      (r : Exception)
      → find_existing db fs cmd.owner_id cmd.idempotency_key w ≡ (err r, x)
      → proceed db fs cmd draws o w ≡ (err r, x)
  unfolding proceed
  proceed-raised cmd draws o w x r e = ground (arith, e)

  Ends-of_same :
      (cmd : UploadFileCommand) (draws : UploadDraws) (o : StoredObject) (z w y x : World S F)
      → laws.view y.session ≡ laws.view w.session
      → y.storage ≡ w.storage
      → Ends cmd draws o z y x
      → Ends cmd draws o z w x
  Ends-of_same cmd draws o z w y x same_view same_storage h = rw (← same_view, ← same_storage) h

  -- Where the transaction starts.
  abbrev pub at_persist : UploadFileCommand → World S F → World S F
  at_persist cmd w = (find_existing db fs cmd.owner_id cmd.idempotency_key w).1

  proceed-Ends :
      (cmd : UploadFileCommand) (draws : UploadDraws) (o : StoredObject) (w : World S F)
      → Ends cmd draws o (at_persist cmd w) w (proceed db fs cmd draws o w).1
  proceed-Ends cmd draws o w =
      let same = find_existing-storage db fs cmd.owner_id cmd.idempotency_key w in
      let law = find_existing-Outcome db laws fs cmd.owner_id cmd.idempotency_key w in
      elim (run-cases (find_existing db fs cmd.owner_id cmd.idempotency_key w)) [
        | inl (some file, x, e) ↦ rw (proceed-found db fs cmd draws o w x file e) (
            inl (
              ground (arith, e, law, replay-Outcome db laws fs file o x),
              inr (
                  replay-storage file o x ∙ ap (λ f. (fs.delete o.storage_key f).1) (rw e at same)),
            ))
        | inl (none, x, e) ↦ rw (proceed-absent db fs cmd draws o w x e) (
            subst (λ z. Ends cmd draws o z w (store_new db fs cmd draws o x).1)
              (sym (ap (λ p. p.1) e))
              (Ends-of_same cmd draws o x w x (store_new db fs cmd draws o x).1
                (ground (arith, e, law)) (rw e at same) (store_new-Ends cmd draws o x)))
        | inr (r, x, e) ↦
            rw (proceed-raised cmd draws o w x r e)
              (inl (ground (arith, e, law), inl (rw e at same)))
      ]

  execute-refused :
      (max : ℕ) (cmd : UploadFileCommand) (draws : UploadDraws) (w : World S F) (r : Exception)
      (f : F)
      → fs.write cmd.stream max w.storage ≡ (err r, f)
      → ((execute db fs max cmd draws w).1.session ≡ w.session)
        × ((execute db fs max cmd draws w).1.storage ≡ f)
  unfolding execute
  execute-refused max cmd draws w r f e = ground (arith, e)

  -- The whole call: the write fails and leaves the database alone, or it gives an object, and the
  -- rest of the call starts with the storage that it leaves.
  pub execute-Ends :
      (max : ℕ) (cmd : UploadFileCommand) (draws : UploadDraws) (w : World S F)
      → ((r : Exception) × (f : F) × (fs.write cmd.stream max w.storage ≡ (err r, f))
          × ((execute db fs max cmd draws w).1.session ≡ w.session)
          × ((execute db fs max cmd draws w).1.storage ≡ f))
        ⊎ ((o : StoredObject) × (f : F) × (fs.write cmd.stream max w.storage ≡ (ok o, f))
            × Ends cmd draws o
                (at_persist cmd (record w { storage = f }))
                (record w { storage = f })
                (execute db fs max cmd draws w).1)
  execute-Ends max cmd draws w = elim (run-cases (fs.write cmd.stream max w.storage)) [
    | inl (o, f, e) ↦ inr (
      o,
      f,
      e,
      rw (execute-written db fs max cmd draws w o f e)
          (proceed-Ends cmd draws o (record w { storage = f })),
    )
    | inr (r, f, e) ↦
        let (same, storage) = execute-refused max cmd draws w r f e in inl (r, f, e, same, storage)
  ]
