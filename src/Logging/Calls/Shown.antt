-- ===== src/Logging/Calls/Shown.antt =====
-- What the log lines show of what is passed to them.
use secure_file_service.Logging.Payload.{json_payload-lookup}
use secure_file_service.Logging.{json_payload, LogRecord, LogContext, reserved, is_one_of, is_extra}
use secure_file_service.Prelude.Dict.{HasDistinctKeys, lookup, Dict}
use secure_file_service.Logging.Calls.{
  LogCall, Value, log_extra, file_uploaded, upload_replayed, link_generated, object_kept,
  file_deleted, object_missing, download_served, domain_failure, request_completed, check_failed,
  tracing_enabled, service_started,
}
use secure_file_service.Prelude.{
  starts_with, ap, text_eq_iff, codes, ℕ, text_eq, All, not, Bool, Text, [], ◌∷◌, some, true, ◌&&◌,
  refl, arith, ◌≡◌, ◌++◌, Bool-cases, inl, inr,
}

-- Keys that logging accepts in `extra`, and that the formatter does not set behind them.
unfoldable pub is_accepted : Text → Bool
is_accepted key =
    is_extra key && (not (text_eq (codes "asctime") key) && not (text_eq (codes "exception") key))

abbrev pub AllAccepted : Dict Value → Type 0
AllAccepted d = All (λ (e : Text × Value). is_accepted e.0 ≡ true) d

log_extra-AllAccepted : (c : LogCall) → AllAccepted (log_extra c)
unfolding log_extra is_accepted is_extra is_one_of reserved text_eq starts_with
log_extra-AllAccepted (file_uploaded a b c) = ground arith
log_extra-AllAccepted (upload_replayed a) = ground arith
log_extra-AllAccepted (link_generated a b c d) = ground arith
log_extra-AllAccepted (object_kept a) = ground arith
log_extra-AllAccepted (file_deleted a) = ground arith
log_extra-AllAccepted (object_missing a b) = ground arith
log_extra-AllAccepted (download_served a b) = ground arith
log_extra-AllAccepted (domain_failure a b) = ground arith
log_extra-AllAccepted (request_completed a b c d e f g h) = ground arith
log_extra-AllAccepted (check_failed a) = ground arith
log_extra-AllAccepted (tracing_enabled a) = ground arith
log_extra-AllAccepted (service_started a b c d) = ground arith

AllAccepted-lookup :
    (d : Dict Value) (key : Text) (v : Value)
    → AllAccepted d
    → lookup key d ≡ some v
    → is_accepted key ≡ true
unfolding lookup
AllAccepted-lookup [] key v h e = absurd (ground arith)
AllAccepted-lookup ((j, w) ∷ d) key v (here', h) e = elim (Bool-cases (text_eq j key)) [
  | inl same ↦ rw⁻¹ ((text_eq_iff j key).0 same) here'
  | inr other ↦ AllAccepted-lookup d key v h (ground (arith, e, other))
]

-- The attributes that every record has by itself have reserved names.
abbrev pub AllReserved : Dict Value → Type 0
AllReserved d = All (λ (e : Text × Value). is_one_of e.0 reserved ≡ true) d

lookup-behind :
    (standard extra : Dict Value) (key : Text)
    → AllReserved standard
    → is_extra key ≡ true
    → lookup key (standard ++ extra) ≡ lookup key extra
unfolding lookup is_extra
lookup-behind [] extra key h shown = refl
lookup-behind ((j, w) ∷ standard) extra key (is, h) shown = elim (Bool-cases (text_eq j key)) [
  | inl same ↦
      absurd
        (ground (arith, shown, ap (λ k. is_one_of k reserved) ((text_eq_iff j key).0 same), is))
  | inr other ↦ ground (arith, other, lookup-behind standard extra key h shown)
]

-- Whatever a call of a logger passes is in its JSON line: each key has the value that was passed,
-- whatever the formatter would set for it. And no call passes a name that logging refuses, by raising
-- KeyError: those of the attributes of a record, "message" and "asctime". The attributes of the
-- record are its own, which have reserved names, and those that were passed, each key once.
pub log_call-IsShown :
    {E : Type 0} (text : Text → Value) (isoformat : ℕ → Text) (format_exception : E → Text)
    (service environment : Text) (context : LogContext) (r : LogRecord Value E) (c : LogCall)
    (standard : Dict Value) (key : Text) (v : Value)
    → r.attributes ≡ standard ++ log_extra c
    → AllReserved standard
    → HasDistinctKeys r.attributes
    → lookup key (log_extra c) ≡ some v
    → (lookup key (json_payload text isoformat format_exception service environment context r)
        ≡ some v)
      × AllAccepted (log_extra c)
unfolding is_accepted
log_call-IsShown text isoformat format_exception service environment context r c standard key v e
      own distinct passed =
    let ok_key = AllAccepted-lookup (log_extra c) key v (log_extra-AllAccepted c) passed in
    let found = lookup-behind standard (log_extra c) key own (ground (arith, ok_key)) in
    let (once, shown, id, user) =
      json_payload-lookup text isoformat format_exception service environment context r key
        distinct in
    (
      ground (arith, shown, ok_key, ap (λ d. lookup key d) e, found, passed),
      log_extra-AllAccepted c,
    )
