-- ===== src/Config/Fields.antt =====
-- The fields of `Settings` in app/core/config.py: their bounds, the validators that change their
-- values, and the lists that are read from them.
use secure_file_service.Domain.Ttl.{validate_ttl}
use secure_file_service.Security.Signer.{make_signer}
use secure_file_service.Config.Laws.{validate-make_signer}
use secure_file_service.Prelude.Dict.{Dict}
use secure_file_service.Config.{
  active_signing_key_id, signing_key_ring, Settings, normalize_database_url, validate,
}
use secure_file_service.Domain.Errors.{Exception, value_error}
use secure_file_service.Prelude.Results.{Result, ok, err, Result-cases}
use secure_file_service.Prelude.{
  none, subst, cons_unless, ◌≡◌, ℕ, starts_with, ends_with, is_space, ◌==◌, split, strip, leb,
  if◌then◌else◌, codes, text_eq, strip_end, Bool, List, Text, [], ◌∷◌, true, false, ◌≤◌, arith,
  refl, Bool-cases, inl, inr, ◌&&◌, ◌||◌,
}

-- `_strip_trailing_slash`
unfoldable pub strip_trailing_slash : Text → Text
strip_trailing_slash value = strip_end (λ c. c == b'/') value

-- `value in names`
abbrev is_listed : Text → List Text → Bool
is_listed value [] = false
is_listed value (name ∷ names) = text_eq name value || is_listed value names

abbrev pub levels : List Text
levels = codes "DEBUG" ∷ codes "INFO" ∷ codes "WARNING" ∷ codes "ERROR" ∷ codes "CRITICAL" ∷ []

-- `_upper_level`; `upper` is `str.upper`.
unfoldable pub upper_level : (Text → Text) → Text → Result Exception Text
upper_level upper value =
    let level = upper value in if is_listed level levels then ok level else err value_error

-- The values of the two `Literal` fields.
abbrev environments : List Text
environments = codes "development" ∷ codes "test" ∷ codes "staging" ∷ codes "production" ∷ []

abbrev formats : List Text
formats = codes "json" ∷ codes "console" ∷ []

-- What the declarations of the fields ask for. A negative number, which every bound refuses, is left
-- out.
unfoldable pub fields_ok : Settings → Bool
fields_ok s =
    is_listed s.environment environments
    && is_listed s.log_format formats
    && leb 1 s.port
    && leb s.port 65535
    && leb 1024 s.max_request_body_bytes
    && leb 1 s.shutdown_timeout_seconds
    && leb 1 s.database_pool_size
    && leb 1 s.database_connect_timeout_seconds
    && leb 100 s.database_statement_timeout_ms
    && leb 1 s.max_upload_bytes
    && leb 1024 s.upload_chunk_bytes
    && leb 1 s.default_link_ttl_seconds
    && leb 1 s.max_link_ttl_seconds

-- The values with which the field validators replace those that were read.
abbrev with_fields : Settings → Text → Settings
with_fields raw level = record raw {
  log_level = level;
  public_base_url = strip_trailing_slash raw.public_base_url;
  database_url = normalize_database_url raw.database_url;
}

-- `_validate` returns the settings it was given.
abbrev validated : Settings → Result Exception Settings
validated s = elim (validate s) [ err e ↦ err e | ok done ↦ ok s ]

-- `Settings()`, from values of the fields' types.
unfoldable pub load_settings : (Text → Text) → Settings → Result Exception Settings
load_settings upper raw = elim (upper_level upper raw.log_level) [
  | err e ↦ err e
  | ok level ↦ if fields_ok raw then validated (with_fields raw level) else err value_error
]

abbrev cons_truthy : Text → List Text → List Text
cons_truthy [] rest = rest
cons_truthy (c ∷ s) rest = (c ∷ s) ∷ rest

-- [x.strip() for x in value.split(",") if x.strip()]
unfoldable pub comma_list : List Text → List Text
comma_list [] = []
comma_list (chunk ∷ chunks) =
    let rest = comma_list chunks in cons_truthy (strip is_space chunk) rest

unfoldable pub cors_origin_list : Settings → List Text
cors_origin_list s = comma_list (split b',' s.cors_origins)

-- `… or ["*"]`
abbrev or_any : List Text → List Text
or_any [] = codes "*" ∷ []
or_any (host ∷ hosts) = host ∷ hosts

unfoldable pub trusted_host_list : Settings → List Text
trusted_host_list s = or_any (comma_list (split b',' s.trusted_hosts))

ends_with-cons_unless :
    (c d : ℕ) (t : Text)
    → ends_with (c ∷ []) t ≡ false
    → ends_with (c ∷ []) (cons_unless (d == c) d t) ≡ false
unfolding ends_with text_eq
ends_with-cons_unless c d [] h = elim (Bool-cases (d == c)) [
  | inl e ↦ rw e refl
  | inr e ↦ rw e (ground (arith, e))
]
ends_with-cons_unless c d (x ∷ t) h = ground (arith, h)

ends_with-strip_end : (c : ℕ) (s : Text) → ends_with (c ∷ []) (strip_end (λ x. x == c) s) ≡ false
unfolding ends_with strip_end text_eq
ends_with-strip_end c [] = refl
ends_with-strip_end c (d ∷ s) =
    ends_with-cons_unless c d (strip_end (λ x. x == c) s) (ends_with-strip_end c s)

-- A URL that leaves the choice of the driver open.
abbrev pub is_bare : Text → Bool
is_bare url = starts_with (codes "postgresql://") url || starts_with (codes "postgres://") url

normalize_database_url-is_bare : (url : Text) → is_bare (normalize_database_url url) ≡ false
unfolding normalize_database_url starts_with
normalize_database_url-is_bare url = elim (Bool-cases (starts_with (codes "postgresql://") url)) [
  | inl e ↦ rw e refl
  | inr e ↦ elim (Bool-cases (starts_with (codes "postgres://") url)) [
    | inl f ↦ rw (e, f) refl
    | inr f ↦ rw (e, f) (ground (arith, e, f))
  ]
]

-- What the rest of the program needs of its settings.
abbrev pub IsUsable : Settings → Type 0
IsUsable s =
    ((ring : Dict Text) × (k : Text) × (signing_key_ring s ≡ ok ring)
      × (active_signing_key_id s ≡ ok k)
      × (make_signer ring k ≡ ok (record { keys = ring; active = k })))
    × (validate_ttl none s.default_link_ttl_seconds s.max_link_ttl_seconds
        ≡ ok s.default_link_ttl_seconds)
    × (ends_with (codes "/") s.public_base_url ≡ false)
    × (is_bare s.database_url ≡ false)
    × (1 ≤ s.max_upload_bytes)
    × (1024 ≤ s.upload_chunk_bytes)

fields_ok-bounds :
    (s : Settings)
    → fields_ok s ≡ true
    → (1 ≤ s.max_upload_bytes) × (1024 ≤ s.upload_chunk_bytes) × (1 ≤ s.default_link_ttl_seconds)
unfolding fields_ok
fields_ok-bounds s h = (ground (arith, h), ground (arith, h), ground (arith, h))

validated-IsUsable :
    (raw : Settings) (level : Text)
    → fields_ok raw ≡ true
    → validate (with_fields raw level) ≡ ok tt
    → IsUsable (with_fields raw level)
unfolding strip_trailing_slash strip_end
validated-IsUsable raw level fine valid =
    let (uploads, chunks, positive) = fields_ok-bounds raw fine in
    let (ring, k, e, active, made, ttl) =
      validate-make_signer (with_fields raw level) valid positive in
    (
      (ring, k, e, active, made),
      ttl,
      ends_with-strip_end b'/' raw.public_base_url,
      normalize_database_url-is_bare raw.database_url,
      uploads,
      chunks,
    )

-- Settings that load make the parts of the program that depend on them: the key ring can be parsed,
-- its active key is in it and the signer is made of the two; a link without a requested TTL gets the
-- default TTL; the base URL has no slash at its end, so that the path of a link can follow it; the
-- URL of the database does not begin with postgresql:// or postgres://; and a file of one byte can be
-- uploaded, in chunks of at least 1024 bytes.
pub load_settings-IsUsable :
    (upper : Text → Text) (raw s : Settings) → load_settings upper raw ≡ ok s → IsUsable s
unfolding load_settings
load_settings-IsUsable upper raw s h = elim (Result-cases (upper_level upper raw.log_level)) [
  | inr (x, e) ↦ absurd (ground (arith, e, h))
  | inl (level, e) ↦ elim (Bool-cases (fields_ok raw)) [
    | inr bad ↦ absurd (ground (arith, e, bad, h))
    | inl fine ↦ elim (Result-cases (validate (with_fields raw level))) [
      | inr (x, ev) ↦ absurd (ground (arith, e, fine, ev, h))
      | inl (tt, ev) ↦
          let same : with_fields raw level ≡ s = ground (arith, e, fine, ev, h) in
          subst IsUsable same (validated-IsUsable raw level fine ev)
    ]
  ]
]
