-- ===== src/Config.antt =====
-- app/core/config.py: the parsers of the settings and their validation; the bounds and validators of
-- single fields are in Fields. Reading the environment is pydantic's.
use secure_file_service.Prelude.Utf8.{utf8}
use secure_file_service.Prelude.Dict.{lookup, Dict}
pub mod Laws
pub mod Fields
use secure_file_service.Prelude.{
  is_none, not, ◌||◌, length, [], split_once, is_space, some, drop, ◌++◌, ltb, false, true, text_eq,
  ℕ, split, none, strip, ◌∷◌, starts_with, codes, if◌then◌else◌, Bool, Option, List, Text, ◌≡◌,
}
use secure_file_service.Prelude.Results.{Result, ok, err, ◌>>=◌}
use secure_file_service.Domain.Errors.{Exception, value_error}

abbrev pub dev_signing_keys : Text
dev_signing_keys = codes "dev:dev-signing-secret-do-not-use-in-production-0123456789"

abbrev pub dev_api_keys : Text
dev_api_keys = codes "dev-key-alice:alice,dev-key-bob:bob"

abbrev driver_url : Text → Text
driver_url rest = codes "postgresql+psycopg://" ++ rest

unfoldable pub normalize_database_url : Text → Text
normalize_database_url url =
    if starts_with (codes "postgresql://") url
    then driver_url (drop 13 url)
    else if starts_with (codes "postgres://") url
    then driver_url (drop 11 url)
    else url

-- The body of the loop of `_parse_pairs`, up to the test for a duplicate.
abbrev pub checked_entry : Text × Text → Result Exception (Option (Text × Text))
checked_entry ([], value) = err value_error
checked_entry (c ∷ key, []) = err value_error
checked_entry (c ∷ key, d ∷ value) = ok (some (c ∷ key, d ∷ value))

abbrev pub stripped : Text × Text → Text × Text
stripped (key, value) = (strip is_space key, strip is_space value)

unfoldable pub entry_of : Text → Result Exception (Option (Text × Text))
entry_of [] = ok none
entry_of (c ∷ chunk) = elim (split_once b':' (c ∷ chunk)) [
  | none ↦ err value_error
  | some pair ↦ checked_entry (stripped pair)
]

unfoldable pub parse_chunks : List Text → Dict Text → Result Exception (Dict Text)
parse_chunks [] result = ok result
parse_chunks (chunk ∷ chunks) result = elim (entry_of (strip is_space chunk)) [
  | err e ↦ err e
  | ok none ↦ parse_chunks chunks result
  | ok (some (key, value)) ↦
      let rest = parse_chunks chunks (result ++ (key, value) ∷ []) in
      if not (is_none (lookup key result)) then err value_error else rest
]

abbrev pub require_entries : Dict Text → Result Exception (Dict Text)
require_entries [] = err value_error
require_entries (entry ∷ result) = ok (entry ∷ result)

-- `_parse_pairs`
unfoldable pub parse_pairs : Text → Result Exception (Dict Text)
parse_pairs raw = parse_chunks (split b',' raw) [] >>= require_entries

pub record Settings : Type 0 where
  pub app_name : Text
  pub environment : Text
  pub log_level : Text
  pub log_format : Text
  pub host : Text
  pub port : ℕ
  pub public_base_url : Text
  pub trusted_hosts : Text
  pub cors_origins : Text
  pub max_request_body_bytes : ℕ
  pub shutdown_timeout_seconds : ℕ
  pub database_url : Text
  pub database_pool_size : ℕ
  pub database_max_overflow : ℕ
  pub database_connect_timeout_seconds : ℕ
  pub database_statement_timeout_ms : ℕ
  pub storage_root : Text
  pub max_upload_bytes : ℕ
  pub upload_chunk_bytes : ℕ
  pub signing_keys : Text
  pub signing_active_key_id : Option Text
  pub default_link_ttl_seconds : ℕ
  pub max_link_ttl_seconds : ℕ
  pub api_keys : Text
  pub metrics_enabled : Bool
  pub otel_enabled : Bool
  pub otel_service_name : Text
  pub otel_exporter_otlp_endpoint : Option Text

-- `{k: v.encode("utf-8") for k, v in ...}`
unfoldable pub encode_values : Dict Text → Result Exception (Dict Text)
encode_values [] = ok []
encode_values ((k, v) ∷ d) = elim (utf8 v) [
  | none ↦ err value_error
  | some bytes ↦ elim (encode_values d) [ err e ↦ err e | ok rest ↦ ok ((k, bytes) ∷ rest) ]
]

unfoldable pub signing_key_ring : Settings → Result Exception (Dict Text)
signing_key_ring s = parse_pairs s.signing_keys >>= encode_values

-- `next(iter(ring))`: the ring is not empty, since `_parse_pairs` refuses that.
abbrev pub first_key : Dict Text → Result Exception Text
first_key [] = err value_error
first_key ((k, v) ∷ d) = ok k

abbrev pub active_key : Option Text → Dict Text → Result Exception Text
active_key none ring = first_key ring
active_key (some key_id) ring = ok key_id

unfoldable pub active_signing_key_id : Settings → Result Exception Text
active_signing_key_id s = signing_key_ring s >>= active_key s.signing_active_key_id

unfoldable pub api_key_map : Settings → Result Exception (Dict Text)
api_key_map s = parse_pairs s.api_keys

unfoldable pub is_production : Settings → Bool
is_production s = text_eq s.environment (codes "production")

abbrev pub has_key : Option Text → Dict Text → Bool
has_key none ring = true
has_key (some key_id) ring = not (is_none (lookup key_id ring))

abbrev pub has_short_secret : Dict Text → Bool
has_short_secret [] = false
has_short_secret ((k, v) ∷ d) = ltb (length v) 32 || has_short_secret d

-- The tests of `_validate` that only production needs.
unfoldable pub validate_production : Settings → Dict Text → Result Exception Unit
validate_production s ring =
    if text_eq s.signing_keys dev_signing_keys || text_eq s.api_keys dev_api_keys
    then err value_error
    else if has_short_secret ring
    then err value_error
    else if not (starts_with (codes "https://") s.public_base_url)
    then err value_error
    else ok tt

-- `_validate`
unfoldable pub validate : Settings → Result Exception Unit
validate s = do
  ring ← signing_key_ring s
  known ← if has_key s.signing_active_key_id ring then ok tt else err value_error
  users ← api_key_map s
  if ltb s.max_link_ttl_seconds s.default_link_ttl_seconds
      then err value_error
      else if is_production s
      then validate_production s ring
      else ok tt
