-- ===== src/Security/Identifiers.antt =====
-- `new_id` of app/core/security.py. The draws of `secrets.choice` are positions in the alphabet.
use secure_file_service.Prelude.{List, ℕ, codes, Text, [], ◌∷◌, ◌++◌, suc, zero, map}

abbrev pub id_alphabet : Text
id_alphabet = codes "abcdefghijklmnopqrstuvwxyz0123456789"

-- The element at a position, and the first one for a position behind the end, which is not drawn.
unfoldable pub choice : Text → ℕ → ℕ
choice [] i = b'a'
choice (c ∷ s) zero = c
choice (c ∷ s) (suc i) = choice s i

unfoldable pub new_id : Text → List ℕ → Text
new_id prefix draws = prefix ++ map (choice id_alphabet) draws
