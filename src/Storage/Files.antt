-- ===== src/Storage/Files.antt =====
-- The files of a file system, by resolved path: what `open(..., "wb")`, `write`, `os.replace`,
-- `unlink` and `is_file` of Python's standard library do to regular files.
use secure_file_service.Prelude.{
  ◌≡◌, Text, arith, Option, none, some, List, [], ◌∷◌, true, if◌then◌else◌,
}
use secure_file_service.Storage.Paths.{names_eq}
use secure_file_service.Storage.Paths.Containment.{names_eq_refl, names_eq_sound}

abbrev pub Files : Type 0
Files = List (List Text × Text)

unfoldable pub content_of : Files → List Text → Option Text
content_of [] p = none
content_of ((q, c) ∷ fs) p = if names_eq q p then some c else content_of fs p

unfoldable pub remove_file : List Text → Files → Files
remove_file p [] = []
remove_file p ((q, c) ∷ fs) =
    let rest = remove_file p fs in if names_eq q p then rest else (q, c) ∷ rest

unfoldable pub put_file : List Text → Text → Files → Files
put_file p c fs = (p, c) ∷ remove_file p fs

pub names_eq_iff :
    (xs ys : List Text) → (names_eq xs ys ≡ true → xs ≡ ys) × (xs ≡ ys → names_eq xs ys ≡ true)
names_eq_iff xs ys = (names_eq_sound xs ys, (λ e. rw e (names_eq_refl ys)))

pub content_of-remove_file :
    (p q : List Text) (fs : Files)
    → content_of (remove_file p fs) q ≡ (if names_eq p q then none else content_of fs q)
unfolding content_of remove_file
content_of-remove_file p q [] = ground arith
content_of-remove_file p q ((r, c) ∷ fs) =
    ground
      (arith, content_of-remove_file p q fs, names_eq_iff r p, names_eq_iff r q, names_eq_iff p q)

pub content_of-put_file :
    (p q : List Text) (c : Text) (fs : Files)
    → content_of (put_file p c fs) q ≡ (if names_eq p q then some c else content_of fs q)
unfolding content_of put_file
content_of-put_file p q c fs = ground (arith, content_of-remove_file p q fs)
