-- ===== src/Application/Revocation.antt =====
-- Deleting a file invalidates its links.
use secure_file_service.Prelude.{
  subst, ℕ, ◌≡◌, ◌≢◌, sym, ◌∙◌, ap, Text, text_eq_iff, arith, List, [], ◌∷◌, true, false, Bool, ◌⊎◌,
  inl, inr, map, Bool-cases,
}
use secure_file_service.Prelude.Results.{ok}
use secure_file_service.Domain.Entities.{FileRecord, deleted, RequestContext, DownloadTarget}
use secure_file_service.Security.Signer.{UrlSigner}
use secure_file_service.Persistence.Models.{
  FileModel, file_entity, file_status-status_value, file_entity-fields,
}
use secure_file_service.Persistence.Session.{Session, SessionLaws, View, Occurs, update_where}
use secure_file_service.Persistence.FileRepository.{has_id, with_status}
use secure_file_service.Storage.{FileStorage, StorageLaws}
use secure_file_service.Application.World.{World}
use secure_file_service.Application.DeleteFile
use secure_file_service.Application.DeleteFile.{DeleteFileCommand, DeleteDraws}
use secure_file_service.Application.DeleteFile.Effects.{execute-Marked}
use secure_file_service.Application.Download.{SignedRequest, DownloadDraws, resolve}
use secure_file_service.Application.Download.Serving.{resolve-IsServed}

-- `id` is the primary key of `files`.
abbrev pub HasUniqueIds : List FileModel → Type 0
HasUniqueIds files = (a b : FileModel) → Occurs a files → Occurs b files → a.id ≡ b.id → a ≡ b

module _ (p : FileModel → Bool) (f : FileModel → FileModel) where
  -- A row of an updated table is an updated row that fitted, or an old one that did not.
  Occurs-update_where :
      (m : FileModel) (xs : List FileModel)
      → Occurs m (map (update_where p f) xs)
      → ((old : FileModel) × (p old ≡ true) × (m ≡ f old)) ⊎ (p m ≡ false)
  Occurs-update_where m [] h = absurd h
  Occurs-update_where m (x ∷ xs) (inl same) = elim (Bool-cases (p x)) [
    | inl fits ↦ inl (x, fits, ground arith)
    | inr other ↦ inr (ground arith)
  ]
  Occurs-update_where m (x ∷ xs) (inr later) = Occurs-update_where m xs later

marked-status :
    (at : ℕ) (old : FileModel) (file : FileRecord)
    → file_entity (with_status deleted at old) ≡ ok file
    → file.status ≡ deleted
marked-status at old file h =
    let status = (file_entity-fields (with_status deleted at old) file h).3 in
    cc (status, file_status-status_value deleted)

module _ {S F : Type 0} (db : Session S) (fs : FileStorage F) (laws : SessionLaws db)
    {sha256 : Text → Text} (storage_laws : StorageLaws sha256 fs) (hmac_sha256 : Text → Text → Text)
    (urlsafe_b64encode : Text → Text) (signer : UrlSigner) where
  -- Once a deletion has returned, no request for that file is served from a session that sees its
  -- outcome, whatever the signature, the expiry and the time: existing links stop working.
  pub no_download_after_delete :
      (cmd : DeleteFileCommand) (draws : DeleteDraws) (w x y z : World S F) (req : SignedRequest)
      (context : RequestContext) (later : DownloadDraws) (target : DownloadTarget)
      → HasUniqueIds (laws.view w.session).files
      → DeleteFile.execute db fs cmd draws w ≡ (ok tt, x)
      → laws.view y.session ≡ laws.view x.session
      → req.file_id ≡ cmd.file_id
      → resolve db fs hmac_sha256 urlsafe_b64encode signer req context later y ≢ (ok target, z)
  no_download_after_delete cmd draws w x y z req context later target unique done sees same_id
        served =
      let (file, m, there, id, owner, entity, effect) =
        execute-Marked db fs laws storage_laws cmd draws w x done in
      let s =
        resolve-IsServed db fs hmac_sha256 urlsafe_b64encode signer laws storage_laws req context
          later y z target served in
      let listed : Occurs s.model (laws.view x.session).files = rw sees at s.listed in
      elim effect [
        | inl (gone, same_view, same_storage) ↦
            let again : Occurs s.model (laws.view w.session).files = rw same_view at listed in
            let one = unique s.model m again there (s.id ∙ same_id ∙ sym id) in
            ground (arith, s.entity, entity, one, s.not_deleted)
        | inr (was, marked) ↦
            let file_id = (file_entity-fields m file entity).0 in
            let in_update = ap (λ (v : View). v.files) marked in
            elim (Occurs-update_where (has_id file.id) (with_status deleted draws.now) s.model
              (laws.view w.session).files (subst (λ fs'. Occurs s.model fs') in_update listed)) [
                | inl (old, fits, is) ↦
                    let status = marked-status draws.now old s.file (rw is at s.entity) in
                    cc (status, s.not_deleted)
                | inr other ↦
                    ground
                      (arith, other, s.id, same_id, id, file_id, text_eq_iff s.model.id file.id)
              ]
      ]
