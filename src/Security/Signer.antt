-- ===== src/Security/Signer.antt =====
-- `UrlSigner` of app/core/security.py. HMAC-SHA256 and `base64.urlsafe_b64encode` are functions on
-- bytes that the section takes as parameters.
pub mod Message
pub mod Laws
use secure_file_service.Prelude.{
  [], text_eq, is_none, ◌==◌, ◌++◌, if◌then◌else◌, none, some, List, strip_end, codes, ◌∷◌, Option,
  ℕ, Text,
}
use secure_file_service.Prelude.Results.{Result, ok, err}
use secure_file_service.Prelude.Utf8.{utf8_replace, utf8}
use secure_file_service.Prelude.Decimal.{decimal}
use secure_file_service.Domain.Errors.{Exception, value_error, key_error}
use secure_file_service.Prelude.Dict.{Dict, lookup}

pub data SignatureError : Type 0 where
  unknown_key_id : Text → SignatureError
  signature_mismatch : SignatureError

-- How `verify` fails: by a SignatureError, or because its input has no encoding.
pub data VerifyError : Type 0 where
  signature_error : SignatureError → VerifyError
  raised : Exception → VerifyError

pub record Signature : Type 0 where
  pub key_id : Text
  pub value : Text

abbrev pub KeyRing : Type 0
KeyRing = Dict Text

pub record UrlSigner : Type 0 where
  pub keys : KeyRing
  pub active : Text

-- `UrlSigner.__init__`: both tests raise ValueError.
unfoldable pub make_signer : KeyRing → Text → Result Exception UrlSigner
make_signer [] active_key_id = err value_error
make_signer (entry ∷ ring) active_key_id =
    if is_none (lookup active_key_id (entry ∷ ring))
    then err value_error
    else ok (record { keys = entry ∷ ring; active = active_key_id })

abbrev pub line_feed : ℕ
line_feed = 0x0a

-- The text that is signed; `.encode()` gives its bytes.
unfoldable pub message_text : Text → Text → ℕ → Text
message_text file_id link_id expires_at =
    codes "v1" ++ line_feed ∷ (file_id ++ line_feed ∷ (link_id ++ line_feed ∷ decimal expires_at))

unfoldable pub message : Text → Text → ℕ → Option Text
message file_id link_id expires_at = utf8 (message_text file_id link_id expires_at)

module _ (hmac_sha256 : Text → Text → Text) (urlsafe_b64encode : Text → Text) where
  -- `_b64url`
  unfoldable pub b64url : Text → Text
  b64url digest = strip_end (λ c. c == b'=') (urlsafe_b64encode digest)

  unfoldable pub expected_signature : Text → Text → Text
  expected_signature key bytes = b64url (hmac_sha256 key bytes)

  -- The key or the encoding may be missing: KeyError and UnicodeEncodeError, which is a ValueError.
  abbrev sign_with : Text → Option Text → Option Text → Result Exception Signature
  sign_with key_id none bytes = err key_error
  sign_with key_id (some key) none = err value_error
  sign_with key_id (some key) (some bytes) =
      ok (record { key_id = key_id; value = expected_signature key bytes })

  unfoldable pub sign : UrlSigner → Text → Text → ℕ → Result Exception Signature
  sign signer file_id link_id expires_at =
      sign_with signer.active (lookup signer.active signer.keys)
        (message file_id link_id expires_at)

  abbrev verify_with : Text → Option Text → Option Text → Text → Result VerifyError Unit
  verify_with key_id none bytes signature = err (signature_error (unknown_key_id key_id))
  verify_with key_id (some key) none signature = err (raised value_error)
  verify_with key_id (some key) (some bytes) signature =
      if text_eq (expected_signature key bytes) (utf8_replace signature)
      then ok tt
      else err (signature_error signature_mismatch)

  unfoldable pub verify : UrlSigner → Text → Text → ℕ → Text → Text → Result VerifyError Unit
  verify signer file_id link_id expires_at key_id signature =
      verify_with key_id (lookup key_id signer.keys) (message file_id link_id expires_at) signature
