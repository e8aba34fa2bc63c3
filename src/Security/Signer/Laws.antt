-- ===== src/Security/Signer/Laws.antt =====
-- What a signature that verifies says: round trip, key rotation, and tampering.
use secure_file_service.Prelude.{
  ℕ, ◌≡◌, ◌≢◌, refl, ap, ◌∙◌, ◌⊎◌, inl, inr, Option, none, some, [], ◌∷◌, Text, text_eq,
  text_eq_iff, text_eq_refl, All, Bool-cases, arith, ◌==◌,
}
use secure_file_service.Prelude.Results.{ok, err}
use secure_file_service.Prelude.Utf8.{utf8_replace, utf8_replace_of_ascii, IsAscii}
use secure_file_service.Prelude.TextLaws.{All-strip_end}
use secure_file_service.Domain.Errors.{key_error}
use secure_file_service.Security.Signer.{
  KeyRing, UrlSigner, Signature, make_signer, message, b64url, expected_signature, sign, verify,
  sign_with, verify_with,
}
use secure_file_service.Security.Signer.Message.{NoLineFeed, message-injective}
use secure_file_service.Prelude.Dict.{lookup}

module _ (hmac_sha256 : Text → Text → Text) (urlsafe_b64encode : Text → Text) where
  sign_with-parts :
      (k : Text) (key bytes : Option Text) (s : Signature)
      → sign_with hmac_sha256 urlsafe_b64encode k key bytes ≡ ok s
      → (x : Text) × (b : Text) × (key ≡ some x)
        × (bytes ≡ some b)
        × (s.key_id ≡ k)
        × (s.value ≡ expected_signature hmac_sha256 urlsafe_b64encode x b)
  sign_with-parts k none bytes s h = cc
  sign_with-parts k (some x) none s h = cc
  sign_with-parts k (some x) (some b) s h = (x, b, refl, refl, ground arith, ground arith)

  verify_with-parts :
      (k : Text) (key bytes : Option Text) (signature : Text)
      → verify_with hmac_sha256 urlsafe_b64encode k key bytes signature ≡ ok tt
      → (x : Text) × (b : Text) × (key ≡ some x)
        × (bytes ≡ some b)
        × (expected_signature hmac_sha256 urlsafe_b64encode x b ≡ utf8_replace signature)
  verify_with-parts k none bytes signature h = cc
  verify_with-parts k (some x) none signature h = cc
  verify_with-parts k (some x) (some b) signature h =
      let expected = expected_signature hmac_sha256 urlsafe_b64encode x b in
      (x, b, refl, refl, ground (arith, text_eq_iff expected (utf8_replace signature)))

  -- A signature is under the active key, and its value is the one expected for its message.
  pub sign-parts :
      (signer : UrlSigner) (f l : Text) (e : ℕ) (s : Signature)
      → sign hmac_sha256 urlsafe_b64encode signer f l e ≡ ok s
      → (x : Text) × (b : Text) × (lookup signer.active signer.keys ≡ some x)
        × (message f l e ≡ some b)
        × (s.key_id ≡ signer.active)
        × (s.value ≡ expected_signature hmac_sha256 urlsafe_b64encode x b)
  unfolding sign
  sign-parts signer f l e s h =
      sign_with-parts signer.active (lookup signer.active signer.keys) (message f l e) s h

  pub verify-parts :
      (signer : UrlSigner) (f l : Text) (e : ℕ) (k signature : Text)
      → verify hmac_sha256 urlsafe_b64encode signer f l e k signature ≡ ok tt
      → (x : Text) × (b : Text) × (lookup k signer.keys ≡ some x)
        × (message f l e ≡ some b)
        × (expected_signature hmac_sha256 urlsafe_b64encode x b ≡ utf8_replace signature)
  unfolding verify
  verify-parts signer f l e k signature h =
      verify_with-parts k (lookup k signer.keys) (message f l e) signature h

  -- `UrlSigner.__init__` leaves no way for `sign` to miss its key.
  pub sign-make_signer :
      (ring : KeyRing) (active : Text) (signer : UrlSigner) (f l : Text) (e : ℕ)
      → make_signer ring active ≡ ok signer
      → sign hmac_sha256 urlsafe_b64encode signer f l e ≢ err key_error
  unfolding make_signer sign
  sign-make_signer [] active signer f l e h = cc
  sign-make_signer (entry ∷ ring) active signer f l e h = ground arith

  module _ (b64_ascii : (bytes : Text) → All IsAscii (urlsafe_b64encode bytes)) where
    b64url-ascii : (digest : Text) → All IsAscii (b64url hmac_sha256 urlsafe_b64encode digest)
    unfolding b64url
    b64url-ascii digest = All-strip_end IsAscii (λ c. c == b'=') _ (b64_ascii digest)

    expected_signature-plain :
        (x b : Text)
        → utf8_replace (expected_signature hmac_sha256 urlsafe_b64encode x b)
          ≡ expected_signature hmac_sha256 urlsafe_b64encode x b
    unfolding expected_signature
    expected_signature-plain x b = utf8_replace_of_ascii _ (b64url-ascii (hmac_sha256 x b))

    -- A signature verifies at every signer whose ring has its key, whichever key is active there,
    -- for the fields that were signed, if base64 gives ASCII only.
    pub verify-sign :
        (signer verifier : UrlSigner) (f l : Text) (e : ℕ) (s : Signature)
        → lookup s.key_id verifier.keys ≡ lookup s.key_id signer.keys
        → sign hmac_sha256 urlsafe_b64encode signer f l e ≡ ok s
        → verify hmac_sha256 urlsafe_b64encode verifier f l e s.key_id s.value ≡ ok tt
    unfolding verify
    verify-sign signer verifier f l e s same h =
        let (x, b, ex, eb, ek, ev) = sign-parts signer f l e s h in
        let found : lookup s.key_id verifier.keys ≡ some x = same ∙ rw ek ex in
        rw (found, eb, ev, expected_signature-plain x b, text_eq_refl) refl

    -- Two different messages with one signature under a key.
    abbrev pub Collision : Text → Type 0
    Collision key =
        (x : Text) × (y : Text) × (x ≢ y)
        × (expected_signature hmac_sha256 urlsafe_b64encode key x
            ≡ expected_signature hmac_sha256 urlsafe_b64encode key y)

    -- Whoever reuses an issued signature for other fields has found a collision: if a signature
    -- that was issued for a file id and a link id without line feeds verifies for some fields
    -- under the same key, these are the fields that were signed, or two different messages have
    -- the same signature under that key. Base64 is taken to give ASCII only.
    pub verify_reused :
        (signer verifier : UrlSigner) (f l g m : Text) (a b : ℕ) (s : Signature) (key : Text)
        → NoLineFeed f
        → NoLineFeed l
        → lookup s.key_id signer.keys ≡ some key
        → lookup s.key_id verifier.keys ≡ some key
        → sign hmac_sha256 urlsafe_b64encode signer f l a ≡ ok s
        → verify hmac_sha256 urlsafe_b64encode verifier g m b s.key_id s.value ≡ ok tt
        → ((f ≡ g) × (l ≡ m) × (a ≡ b)) ⊎ Collision key
    verify_reused signer verifier f l g m a b s key hf hl ks kv issued accepted =
        let (x, bytes, ex, eb, ek, ev) = sign-parts signer f l a s issued in
        let (y, others, ey, eo, same) = verify-parts verifier g m b s.key_id s.value accepted in
        let x_key : x ≡ key = ground (arith, ap (λ (k : Text). lookup k signer.keys) ek) in
        let y_key : y ≡ key = ground arith in
        elim (Bool-cases (text_eq bytes others)) [
          | inl equal ↦ inl (
              message-injective f g l m a b bytes hf hl eb
                (rw ((text_eq_iff bytes others).0 equal) eo))
          | inr differ ↦ inr (
            bytes,
            others,
            (λ e. ground (arith, text_eq_iff bytes others)),
            cc (expected_signature-plain x bytes, ap utf8_replace ev, x_key, y_key, same, ev),
          )
        ]
