-- ===== src/Tests/Keys.antt =====
-- Signatures, API keys and rows at concrete inputs.
use secure_file_service.Security.Signer.Laws.{verify_reused, Collision, verify-sign}
use secure_file_service.Prelude.Results.{ok}
use secure_file_service.Tests.Memory.{toy_b64-IsAscii, toy_b64, toy_hmac}
use secure_file_service.Prelude.Decimal.{decimal}
use secure_file_service.Prelude.Utf8.{utf8_replace, encode_char, utf8}
use secure_file_service.Prelude.Dict.{lookup}
use secure_file_service.Security.Authenticator.{authenticate-lookup, authenticate, make_entries}
use secure_file_service.Security.Signer.Message.{message-injective, NoLineFeed}
use secure_file_service.Security.Signer.{
  line_feed, b64url, expected_signature, verify, message_text, sign, message, Signature, UrlSigner,
  KeyRing,
}
use secure_file_service.Prelude.{
  arith, ℕ, refl, ◌⊎◌, none, is_truthy, strip_end, if◌then◌else◌, ◌≢◌, some, [], text_eq, ◌++◌, ◌∷◌,
  codes, ◌≡◌,
}

abbrev ring : KeyRing
ring = (codes "k1", codes "s3") ∷ (codes "k2", codes "s4") ∷ []

abbrev first_active : UrlSigner
first_active = record { keys = ring; active = codes "k1" }

abbrev second_active : UrlSigner
second_active = record { keys = ring; active = codes "k2" }

abbrev issued : Signature
issued = record {
  key_id = codes "k1";
  value = codes "s3v1" ++ 10 ∷ codes "f" ++ 10 ∷ codes "l" ++ 10 ∷ codes "7";
}

abbrev seven : ℕ
seven = 7

plain : (c : ℕ) → c ≢ line_feed → NoLineFeed (c ∷ [])
plain c h = (h, tt)

message-injective_example : (codes "f" ≡ codes "f") × (codes "l" ≡ codes "l") × (seven ≡ seven)
unfolding message message_text utf8 encode_char decimal
message-injective_example =
    message-injective (codes "f") (codes "f") (codes "l") (codes "l") 7 7
      (codes "v1" ++ 10 ∷ codes "f" ++ 10 ∷ codes "l" ++ 10 ∷ codes "7") (plain b'f' (omega arith))
      (plain b'l' (omega arith)) refl refl

verify-sign_example :
    verify toy_hmac toy_b64 second_active (codes "f") (codes "l") 7 (codes "k1") issued.value
    ≡ ok tt
unfolding sign lookup text_eq message message_text utf8 encode_char decimal expected_signature
    b64url strip_end
verify-sign_example =
    verify-sign toy_hmac toy_b64 toy_b64-IsAscii first_active second_active (codes "f") (codes "l")
      7 issued refl refl

verify_reused_example :
    ((codes "f" ≡ codes "f") × (codes "l" ≡ codes "l") × (seven ≡ seven))
    ⊎ Collision toy_hmac toy_b64 toy_b64-IsAscii (codes "s3")
unfolding sign verify lookup text_eq message message_text utf8 encode_char decimal
    expected_signature b64url strip_end utf8_replace
verify_reused_example =
    verify_reused toy_hmac toy_b64 toy_b64-IsAscii first_active second_active (codes "f")
      (codes "l") (codes "f") (codes "l") 7 7 issued (codes "s3") (plain b'f' (omega arith))
      (plain b'l' (omega arith)) refl refl refl refl

authenticate-lookup_example :
    (authenticate
        ((codes "key1", codes "ann") ∷ (codes "key2", codes "bob") ∷ [])
        (some (codes "key2"))
      ≡ (if is_truthy (some (codes "key2"))
          then lookup
              (codes "key2")
              ((codes "key1", codes "ann") ∷ (codes "key2", codes "bob") ∷ [])
          else none))
    × (authenticate ((codes "key1", codes "ann") ∷ (codes "key2", codes "bob") ∷ []) none ≡ none)
unfolding make_entries utf8 encode_char
authenticate-lookup_example =
    authenticate-lookup ((codes "key1", codes "ann") ∷ (codes "key2", codes "bob") ∷ [])
      ((codes "key1", codes "ann") ∷ (codes "key2", codes "bob") ∷ []) (codes "key2") (codes "key2")
      (((λ e. ground arith), tt), (tt, tt)) refl refl
