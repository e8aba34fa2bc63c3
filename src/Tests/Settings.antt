-- ===== src/Tests/Settings.antt =====
-- Settings at concrete inputs.
use secure_file_service.Prelude.Utf8.{encode_char, utf8}
use secure_file_service.Prelude.Results.{ok}
use secure_file_service.Prelude.Dict.{lookup, Dict}
use secure_file_service.Prelude.{
  false, refl, true, starts_with, is_space, strip, split_once, [], split, ◌∷◌, text_eq, none, Text,
  codes, ◌≡◌,
}
use secure_file_service.Config.{
  api_key_map, validate_production, encode_values, entry_of, is_production, validate,
  signing_key_ring, parse_chunks, Settings, parse_pairs,
}

abbrev pub settings : Settings
settings = record {
  app_name = codes "secure-file-service";
  environment = codes "production";
  log_level = codes "INFO";
  log_format = codes "json";
  host = codes "0.0.0.0";
  port = 8080;
  public_base_url = codes "https://x";
  trusted_hosts = codes "*";
  cors_origins = [];
  max_request_body_bytes = 1048576;
  shutdown_timeout_seconds = 20;
  database_url = codes "postgresql://db";
  database_pool_size = 10;
  database_max_overflow = 10;
  database_connect_timeout_seconds = 5;
  database_statement_timeout_ms = 5000;
  storage_root = codes "./var/storage";
  max_upload_bytes = 104857600;
  upload_chunk_bytes = 65536;
  signing_keys = codes "k:0123456789abcdef0123456789abcdef";
  signing_active_key_id = none;
  default_link_ttl_seconds = 5;
  max_link_ttl_seconds = 9;
  api_keys = codes "a:b";
  metrics_enabled = true;
  otel_enabled = false;
  otel_service_name = codes "secure-file-service";
  otel_exporter_otlp_endpoint = none;
}

abbrev pub ring : Dict Text
ring = (codes "k", codes "0123456789abcdef0123456789abcdef") ∷ []

pub settings-ring : signing_key_ring settings ≡ ok ring
unfolding signing_key_ring encode_values parse_pairs parse_chunks entry_of split split_once strip
    is_space lookup text_eq utf8 encode_char
settings-ring = refl

pub settings_valid : validate settings ≡ ok tt
unfolding validate validate_production is_production api_key_map signing_key_ring encode_values
    parse_pairs parse_chunks entry_of split split_once strip is_space lookup text_eq utf8
    encode_char starts_with
settings_valid = refl
