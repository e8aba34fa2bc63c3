-- ===== src/Storage.antt =====
-- The `FileStorage` port of app/domain/files/ports.py. The handlers take it as a parameter.
pub mod Paths
pub mod Files
pub mod Local
use secure_file_service.Prelude.{
  ℕ, Text, text_eq, Option, none, some, Bool, true, false, List, [], ◌∷◌, ◌++◌, if◌then◌else◌, ◌≡◌,
  ◌≢◌, ◌≤◌, length, is_none, not,
}
use secure_file_service.Prelude.Results.{Result, ok, err}
use secure_file_service.Exec.{Exec, Outcome}
use secure_file_service.Domain.Errors.{Exception}
use secure_file_service.Domain.Entities.{StoredObject}

-- What `stream.read(size)` gives, call by call: a chunk of bytes, or an exception. The end of the
-- list, like an empty chunk, is the end of the stream.
pub data Read : Type 0 where
  chunk : Text → Read
  fails : Exception → Read

abbrev pub Stream : Type 0
Stream = List Read

-- The bytes that a stream gives before it ends.
unfoldable pub payload : Stream → Text
payload [] = []
payload (fails e ∷ reads) = []
payload (chunk [] ∷ reads) = []
payload (chunk (b ∷ bytes) ∷ reads) = b ∷ bytes ++ payload reads

-- `write(stream, max_bytes)`, `path_for`, `exists`, `delete`.
pub record FileStorage (F : Type 0) : Type 0 where
  pub write : Stream → ℕ → Exec F StoredObject
  pub path_for : Text → Result Exception Text
  pub exists : Text → Exec F Bool
  pub delete : Text → Exec F Unit

-- What the handlers rely on: a function from storage keys to the bytes stored under them, which a
-- write that raises leaves alone, and which each other operation changes at its own key at most.
-- Different texts may name one object, but no two of the keys that `write` gives out do. What a
-- write does is said of such keys only, as its temporary objects may have other names.
pub record StorageLaws {F : Type 0} (sha256 : Text → Text) (fs : FileStorage F) : Type 0 where
  pub stored : F → Text → Option Text
  pub same_key : Text → Text → Bool
  pub is_key : Text → Bool
  pub same_key_refl : (key : Text) → same_key key key ≡ true
  pub same_key_eq : (j k : Text) → is_key j ≡ true → is_key k ≡ true → same_key j k ≡ true → j ≡ k
  pub write_law :
      (stream : Stream) (max : ℕ) (f : F)
      → Outcome
          (λ o g.
            (is_key o.storage_key ≡ true)
            × (1 ≤ o.size_bytes)
            × (o.size_bytes ≤ max)
            × (o.size_bytes ≡ length (payload stream))
            × (o.sha256 ≡ sha256 (payload stream))
            × ((k : Text)
                → is_key k ≡ true
                → stored g k
                  ≡ (if same_key o.storage_key k then some (payload stream) else stored f k)))
          (λ g. (k : Text) → is_key k ≡ true → stored g k ≡ stored f k)
          (fs.write stream max f)
  pub exists_law :
      (key : Text) (f : F)
      → Outcome (λ b g. (b ≡ not (is_none (stored f key))) × (g ≡ f)) (λ g. g ≡ f) (fs.exists key f)
  pub delete_law :
      (key : Text) (f : F)
      → Outcome
          (λ _ g. (k : Text) → stored g k ≡ (if same_key key k then none else stored f k))
          (λ g. (k : Text) → stored g k ≡ stored f k)
          (fs.delete key f)
