-- ===== src/System/Invariant.antt =====
-- What holds of the database and the storage between two requests, whatever came before.
use secure_file_service.Persistence.FileRepository.{with_status, has_id}
use secure_file_service.Prelude.Results.{ok}
use secure_file_service.Domain.Entities.{deleted, available, status_value, StoredObject}
use secure_file_service.Persistence.AuditRepository.Laws.{IsClean}
use secure_file_service.Application.Revocation.{HasUniqueIds}
use secure_file_service.Application.World.{World}
use secure_file_service.Persistence.Models.{FileModel}
use secure_file_service.Storage.{Stream, StorageLaws, FileStorage}
use secure_file_service.Persistence.Session.{update_where, Clashes, Occurs, SessionLaws, Session}
use secure_file_service.Prelude.{
  refl, text_eq_iff, text_eq, Bool-cases, ap, arith, sym, subst, inr, inl, ◌⊎◌, false, map, [], ◌≢◌,
  ◌∷◌, ◌++◌, ◌∙◌, true, length, All, ℕ, some, List, Text, ◌≡◌,
}

Occurs-map :
    (f : FileModel → FileModel) (m : FileModel) (xs : List FileModel)
    → Occurs m (map f xs)
    → (old : FileModel) × Occurs old xs × (m ≡ f old)
Occurs-map f m [] h = absurd h
Occurs-map f m (x ∷ xs) (inl same) = (x, inl refl, sym same)
Occurs-map f m (x ∷ xs) (inr later) =
    let (old, there, e) = Occurs-map f m xs later in (old, inr there, e)

-- Marking a row changes neither its id nor its storage key.
mark-fields :
    (id : Text) (at : ℕ) (m : FileModel)
    → ((update_where (has_id id) (with_status deleted at) m).id ≡ m.id)
      × ((update_where (has_id id) (with_status deleted at) m).storage_key ≡ m.storage_key)
mark-fields id at m = ground arith

deleted_unavailable : status_value deleted ≢ status_value available
unfolding status_value
deleted_unavailable e = ground arith

module _ {S F : Type 0} (db : Session S) (laws : SessionLaws db) (fs : FileStorage F)
    {sha256 : Text → Text} (storage_laws : StorageLaws sha256 fs) where
  -- The bytes of a row are stored, and it describes them.
  abbrev pub IsBacked : FileModel → F → Type 0
  IsBacked m f =
      (content : Text) × (storage_laws.stored f m.storage_key ≡ some content)
      × (m.size_bytes ≡ length content)
      × (m.sha256 ≡ sha256 content)

  -- The rows are distinct by id and by storage key, their keys are of the kind that the storage
  -- gives out, and every available file has its bytes.
  pub record IsConsistent (files : List FileModel) (f : F) : Type 0 where
    pub ids : HasUniqueIds files
    pub keys :
        (a b : FileModel) → Occurs a files → Occurs b files → a.storage_key ≡ b.storage_key → a ≡ b
    pub keyed : (m : FileModel) → Occurs m files → storage_laws.is_key m.storage_key ≡ true
    pub backed : (m : FileModel) → Occurs m files → m.status ≡ status_value available → IsBacked m f

  pub record IsSound (w : World S F) : Type 0 where
    pub clean : IsClean (laws.view w.session)
    pub consistent : IsConsistent (laws.view w.session).durable_files w.storage

  -- The random name of a new object is not the name of an older one.
  abbrev pub DrawsFresh : Stream → ℕ → World S F → Type 0
  DrawsFresh stream max w =
      (o : StoredObject) (f : F) (m : FileModel)
      → fs.write stream max w.storage ≡ (ok o, f)
      → Occurs m (laws.view w.session).durable_files
      → storage_laws.same_key o.storage_key m.storage_key ≡ false

  -- A storage that agrees on the keys of the rows.
  pub IsConsistent-same :
      (files : List FileModel) (f g : F)
      → ((m : FileModel)
          → Occurs m files
          → storage_laws.stored g m.storage_key ≡ storage_laws.stored f m.storage_key)
      → IsConsistent files f
      → IsConsistent files g
  IsConsistent-same files f g same c = record {
    ids = c.ids;
    keys = c.keys;
    keyed = c.keyed;
    backed = λ m there is.
        let (content, stored, size, hash) = c.backed m there is in
        (content, same m there ∙ stored, size, hash);
  }

  Occurs-append :
      (m x : FileModel) (xs : List FileModel) → Occurs m (xs ++ x ∷ []) → Occurs m xs ⊎ (m ≡ x)
  Occurs-append m x [] (inl same) = inr (sym same)
  Occurs-append m x [] (inr later) = absurd later
  Occurs-append m x (y ∷ xs) (inl same) = inl (inl same)
  Occurs-append m x (y ∷ xs) (inr later) = elim (Occurs-append m x xs later) [
    | inl there ↦ inl (inr there)
    | inr new ↦ inr new
  ]

  All_of_Occurs :
      (P : FileModel → Type 0) (m : FileModel) (xs : List FileModel) → All P xs → Occurs m xs → P m
  All_of_Occurs P m (x ∷ xs) (h, hs) (inl same) = subst P same h
  All_of_Occurs P m (x ∷ xs) (h, hs) (inr later) = All_of_Occurs P m xs hs later
  All_of_Occurs P m [] h later = absurd later

  -- A new row with its bytes, beside rows that it does not clash with.
  pub IsConsistent-append :
      (files : List FileModel) (x : FileModel) (f : F)
      → IsConsistent files f
      → All (λ m. ¬ Clashes x m) files
      → storage_laws.is_key x.storage_key ≡ true
      → IsBacked x f
      → IsConsistent (files ++ x ∷ []) f
  IsConsistent-append files x f c apart is_new is_backed =
      let clash = λ (m : FileModel) (there : Occurs m files).
        All_of_Occurs (λ m. ¬ Clashes x m) m files apart there in
      record {
        ids = λ a b ha hb e. elim (Occurs-append a x files ha) [
          | inl oa ↦ elim (Occurs-append b x files hb) [
            | inl ob ↦ c.ids a b oa ob e
            | inr nb ↦ absurd (clash a oa (inl (sym (ap (λ (m : FileModel). m.id) nb) ∙ sym e)))
          ]
          | inr na ↦ elim (Occurs-append b x files hb) [
            | inl ob ↦ absurd (clash b ob (inl (sym (ap (λ (m : FileModel). m.id) na) ∙ e)))
            | inr nb ↦ na ∙ sym nb
          ]
        ];
        keys = λ a b ha hb e. elim (Occurs-append a x files ha) [
          | inl oa ↦ elim (Occurs-append b x files hb) [
            | inl ob ↦ c.keys a b oa ob e
            | inr nb ↦
                absurd
                  (clash a oa (inr (inl (sym (ap (λ (m : FileModel). m.storage_key) nb) ∙ sym e))))
          ]
          | inr na ↦ elim (Occurs-append b x files hb) [
            | inl ob ↦
                absurd (clash b ob (inr (inl (sym (ap (λ (m : FileModel). m.storage_key) na) ∙ e))))
            | inr nb ↦ na ∙ sym nb
          ]
        ];
        keyed = λ m there. elim (Occurs-append m x files there) [
          | inl old ↦ c.keyed m old
          | inr new ↦ rw new is_new
        ];
        backed = λ m there is. elim (Occurs-append m x files there) [
          | inl old ↦ c.backed m old is
          | inr new ↦ subst (λ n. IsBacked n f) (sym new) is_backed
        ];
      }

  -- Rows that are marked as deleted, if the storage keeps the objects of all others.
  pub IsConsistent-marked :
      (files : List FileModel) (id : Text) (at : ℕ) (f g : F)
      → IsConsistent files f
      → ((m : FileModel)
          → Occurs m files
          → m.id ≢ id
          → storage_laws.stored g m.storage_key ≡ storage_laws.stored f m.storage_key)
      → IsConsistent (map (update_where (has_id id) (with_status deleted at)) files) g
  IsConsistent-marked files id at f g c same =
      let mark = update_where (has_id id) (with_status deleted at) in
      record {
        ids = λ a b ha hb e.
            let (o, oa, ea) = Occurs-map mark a files ha in
            let (q, ob, eb) = Occurs-map mark b files hb in
            let one = c.ids o q oa ob (
              sym (mark-fields id at o).0
              ∙ sym (ap (λ (m : FileModel). m.id) ea)
              ∙ e
              ∙ ap (λ (m : FileModel). m.id) eb
              ∙ (mark-fields id at q).0) in
            ea ∙ ap mark one ∙ sym eb;
        keys = λ a b ha hb e.
            let (o, oa, ea) = Occurs-map mark a files ha in
            let (q, ob, eb) = Occurs-map mark b files hb in
            let one = c.keys o q oa ob (
              sym (mark-fields id at o).1
              ∙ sym (ap (λ (m : FileModel). m.storage_key) ea)
              ∙ e
              ∙ ap (λ (m : FileModel). m.storage_key) eb
              ∙ (mark-fields id at q).1) in
            ea ∙ ap mark one ∙ sym eb;
        keyed = λ m there.
            let (o, oo, eo) = Occurs-map mark m files there in
            rw (eo, (mark-fields id at o).1) (c.keyed o oo);
        backed = λ m there is.
            let (o, oo, eo) = Occurs-map mark m files there in
            elim (Bool-cases (text_eq o.id id)) [
              | inl hit ↦ absurd (deleted_unavailable (sym (ground (arith, hit, eo)) ∙ is))
              | inr miss ↦
                  let kept : m ≡ o = ground (arith, miss, eo) in
                  let (content, stored, size, hash) =
                    c.backed o oo (sym (ap (λ (m : FileModel). m.status) kept) ∙ is) in
                  let apart = same o oo (λ e. ground (arith, miss, e, text_eq_iff o.id id)) in
                  subst (λ n. IsBacked n g) (sym kept) (content, apart ∙ stored, size, hash)
            ];
      }
