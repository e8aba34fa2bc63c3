-- ===== src/Storage/Paths/Containment.antt =====
-- The comparison of paths, and that every generated key is accepted.
use secure_file_service.Prelude.{
  All_mono, ℕ, ◌≡◌, ◌≢◌, refl, ap₂, Text, text_eq, text_eq_iff, arith, split, All, List, [], ◌∷◌,
  ◌++◌, true, false, ◌⊎◌, ◌==◌, ◌≤◌, &&_parts,
}
use secure_file_service.Prelude.Results.{ok}
use secure_file_service.Storage.Paths.{
  enter, enter_all, resolve_key, names_eq, is_parent, path_for, new_key,
}

pub names_eq_sound : (xs ys : List Text) → names_eq xs ys ≡ true → xs ≡ ys
unfolding names_eq
names_eq_sound [] [] h = refl
names_eq_sound [] (y ∷ ys) h = cc
names_eq_sound (x ∷ xs) [] h = cc
names_eq_sound (x ∷ xs) (y ∷ ys) h =
    let (p, q) = &&_parts (text_eq x y) (names_eq xs ys) h in
    ap₂ (λ (a : Text) (as' : List Text). a ∷ as') ((text_eq_iff x y).0 p) (names_eq_sound xs ys q)

pub names_eq_refl : (xs : List Text) → names_eq xs xs ≡ true
unfolding names_eq
names_eq_refl [] = refl
names_eq_refl (x ∷ xs) = ground (arith, text_eq_iff x x, names_eq_refl xs)

-- A hexadecimal digit, as `uuid4().hex` writes it.
abbrev pub IsHex : ℕ → Type 0
IsHex c = ((b'0' ≤ c) × (c ≤ b'9')) ⊎ ((b'a' ≤ c) × (c ≤ b'f'))

pub split_of_plain : (s : Text) → All (λ c. c ≢ b'/') s → split b'/' s ≡ s ∷ []
unfolding split
split_of_plain [] h = refl
split_of_plain (c ∷ s) (k, h) = ground (arith, split_of_plain s h)

pub split-append :
    (s t : Text) → All (λ c. c ≢ b'/') s → split b'/' (s ++ b'/' ∷ t) ≡ s ∷ split b'/' t
unfolding split
split-append [] t h = refl
split-append (c ∷ s) t (k, h) = ground (arith, split-append s t h)

hex-ne_slash : (s : Text) → All IsHex s → All (λ c. c ≢ b'/') s
hex-ne_slash s h = All_mono IsHex (λ c. c ≢ b'/') (λ c k. ground arith) s h

enter-hex : (stack : List Text) (c : ℕ) (s : Text) → IsHex c → enter stack (c ∷ s) ≡ (c ∷ s) ∷ stack
unfolding enter text_eq
enter-hex stack c s h = ground arith

is_parent-grandchild : (root : List Text) (x y : Text) → is_parent root (x ∷ y ∷ root) ≡ true
unfolding is_parent
is_parent-grandchild root x y = ground (arith, names_eq_refl root)

-- A key that was made from hexadecimal digits names the file with these digits, in the directory
-- with the first two of them, whatever the root.
pub path_for-new_key :
    (root : List Text) (a b : ℕ) (rest : Text)
    → All IsHex (a ∷ b ∷ rest)
    → path_for root (new_key (a ∷ b ∷ rest)) ≡ ok ((a ∷ b ∷ rest) ∷ (a ∷ b ∷ []) ∷ root)
unfolding path_for new_key resolve_key enter_all
path_for-new_key root a b rest (ha, (hb, h)) =
    let hex = a ∷ b ∷ rest in
    let plain = split_of_plain hex (hex-ne_slash hex (ha, (hb, h))) in
    let cut = split-append (a ∷ b ∷ []) hex (hex-ne_slash (a ∷ b ∷ []) (ha, (hb, tt))) in
    let first = enter-hex root a (b ∷ []) ha in
    let second = enter-hex ((a ∷ b ∷ []) ∷ root) a (b ∷ rest) ha in
    let relative : (a == b'/') ≡ false = ground arith in
    rw (relative, cut, plain, first, second, is_parent-grandchild root hex (a ∷ b ∷ [])) refl
