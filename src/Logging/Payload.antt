-- ===== src/Logging/Payload.antt =====
-- The keys of a JSON log line and what they are set to.
use secure_file_service.Prelude.Dict.{
  IsFresh, IsFresh, Dict, set, lookup, lookup-set, HasDistinctKeys, set-HasDistinctKeys,
  lookup-none_iff,
}
use mathlib.Core.Option
use secure_file_service.Logging.{
  plain_fields, set_truthy, json_payload, base_payload, is_extra, set_extras, LogRecord, LogContext,
}
use secure_file_service.Prelude.{
  drop, Option-cases, ◌∙◌, text_eq_refl, codes, ℕ, text_eq, ◌≡◌, if◌then◌else◌, Text, Option, none,
  some, [], ◌∷◌, false, arith, refl, Bool-cases, inl, inr, text_eq_iff,
}

-- `a or b` on values that may be None
abbrev or_else : {V : Type 0} → Option V → Option V → Option V
or_else none b = b
or_else (some a) b = some a

-- The value of a context variable, if it is shown.
abbrev truthy : Option Text → Option Text
truthy none = none
truthy (some []) = none
truthy (some (c ∷ s)) = some (c ∷ s)

module _ {V : Type 0} where
  -- The value that a caller gave for a key, if it is shown.
  abbrev extra_value : Text → Dict V → Option V
  extra_value key attributes = if is_extra key then lookup key attributes else none

  lookup-set_extras :
      (attributes payload : Dict V) (key : Text)
      → HasDistinctKeys attributes
      → lookup key (set_extras attributes payload)
        ≡ or_else (extra_value key attributes) (lookup key payload)
  unfolding lookup set_extras
  lookup-set_extras [] payload key h = ground arith
  lookup-set_extras ((j, v) ∷ attributes) payload key (fresh, h) =
      let e =
        lookup-set_extras attributes (if is_extra j then set j v payload else payload) key h in
      ground (
        arith,
        e,
        lookup-set j key v payload,
        text_eq_iff j key,
        (lookup-none_iff j attributes).1 fresh,
      )

  set_extras-HasDistinctKeys :
      (attributes payload : Dict V)
      → HasDistinctKeys payload
      → HasDistinctKeys (set_extras attributes payload)
  unfolding set_extras
  set_extras-HasDistinctKeys [] payload h = h
  set_extras-HasDistinctKeys ((j, v) ∷ attributes) payload h =
      set_extras-HasDistinctKeys attributes (if is_extra j then set j v payload else payload)
        (elim (Bool-cases (is_extra j)) [
          | inl e ↦ rw e (set-HasDistinctKeys j v payload h)
          | inr e ↦ rw e h
        ])

  set_truthy-HasDistinctKeys :
      (text : Text → V) (key : Text) (value : Option Text) (payload : Dict V)
      → HasDistinctKeys payload
      → HasDistinctKeys (set_truthy text key value payload)
  set_truthy-HasDistinctKeys text key none payload h = h
  set_truthy-HasDistinctKeys text key (some []) payload h = h
  set_truthy-HasDistinctKeys text key (some (c ∷ s)) payload h =
      set-HasDistinctKeys key (text (c ∷ s)) payload h

  lookup-set_truthy :
      (text : Text → V) (key : Text) (value : Option Text) (payload : Dict V)
      → lookup key payload ≡ none
      → lookup key (set_truthy text key value payload) ≡ Option.map text (truthy value)
  lookup-set_truthy text key none payload h = h
  lookup-set_truthy text key (some []) payload h = h
  lookup-set_truthy text key (some (c ∷ s)) payload h =
      ground (arith, lookup-set key key (text (c ∷ s)) payload, text_eq_refl key)

  lookup-set_truthy_other :
      (text : Text → V) (key other : Text) (value : Option Text) (payload : Dict V)
      → text_eq key other ≡ false
      → lookup other (set_truthy text key value payload) ≡ lookup other payload
  lookup-set_truthy_other text key other none payload h = refl
  lookup-set_truthy_other text key other (some []) payload h = refl
  lookup-set_truthy_other text key other (some (c ∷ s)) payload h =
      ground (arith, lookup-set key other (text (c ∷ s)) payload, h)

module _ {V E : Type 0} (text : Text → V) (isoformat : ℕ → Text) (format_exception : E → Text)
    (service environment : Text) (context : LogContext) (r : LogRecord V E) where
  abbrev base : Dict V
  base = base_payload text isoformat format_exception service environment context r

  abbrev whole : Dict V
  whole = json_payload text isoformat format_exception service environment context r

  abbrev plain : Dict V
  plain = plain_fields text isoformat format_exception service environment r

  absent : (key : Text) (d : Dict V) → lookup key d ≡ none → IsFresh key d
  absent key d = (lookup-none_iff key d).0

  plain-HasDistinctKeys : HasDistinctKeys plain
  unfolding lookup text_eq
  plain-HasDistinctKeys = (
    absent (codes "timestamp") (drop 1 plain) refl,
    (
      absent (codes "level") (drop 2 plain) refl,
      (
        absent (codes "logger") (drop 3 plain) refl,
        (
          absent (codes "service") (drop 4 plain) refl,
          (
            absent (codes "environment") (drop 5 plain) refl,
            (absent (codes "message") (drop 6 plain) refl, tt),
          ),
        ),
      ),
    ),
  )

  base-HasDistinctKeys : HasDistinctKeys base
  unfolding base_payload
  base-HasDistinctKeys = set_truthy-HasDistinctKeys text (codes "user_id") context.user_id _ (
      set_truthy-HasDistinctKeys text (codes "request_id") context.request_id plain
        plain-HasDistinctKeys)

  base-request_id : lookup (codes "request_id") base ≡ Option.map text (truthy context.request_id)
  unfolding base_payload lookup text_eq
  base-request_id =
      lookup-set_truthy_other text (codes "user_id") (codes "request_id") context.user_id
        (set_truthy text (codes "request_id") context.request_id plain) refl
      ∙ lookup-set_truthy text (codes "request_id") context.request_id plain refl

  base-user_id : lookup (codes "user_id") base ≡ Option.map text (truthy context.user_id)
  unfolding base_payload lookup text_eq
  base-user_id =
      lookup-set_truthy text (codes "user_id") context.user_id
        (set_truthy text (codes "request_id") context.request_id plain)
        (lookup-set_truthy_other text (codes "request_id") (codes "user_id") context.request_id
          plain refl)

  -- The value of the key "exception"
  abbrev exception_value : Text → Option V
  exception_value key =
      if text_eq (codes "exception") key
      then Option.map (λ e. text (format_exception e)) r.exc_info
      else none

  whole-lookup :
      (key : Text)
      → HasDistinctKeys r.attributes
      → lookup key whole
        ≡ or_else (exception_value key) (or_else (extra_value key r.attributes) (lookup key base))
  unfolding json_payload
  whole-lookup key h =
      let e = lookup-set_extras r.attributes base key h in
      elim (Option-cases r.exc_info) [
        | inl no_error ↦ ground (arith, no_error, e)
        | inr (x, error) ↦ ground (
          arith,
          error,
          e,
          lookup-set (codes "exception") key (text (format_exception x))
              (set_extras r.attributes base),
        )
      ]

  whole-HasDistinctKeys : HasDistinctKeys whole
  unfolding json_payload base_payload
  whole-HasDistinctKeys =
      let h = set_extras-HasDistinctKeys r.attributes base base-HasDistinctKeys in
      elim (Option-cases r.exc_info) [
        | inl no_error ↦ rw no_error h
        | inr (x, error) ↦ rw error (
            set-HasDistinctKeys (codes "exception") (text (format_exception x))
              (set_extras r.attributes base) h)
      ]

  -- A JSON log line has each key once. The value of a key is the exception's text for "exception" if
  -- there is an exception; otherwise what the caller passed for it in `extra`, unless the key is
  -- reserved or begins with an underscore; otherwise what the formatter sets: so a caller's value
  -- replaces the formatter's. The formatter sets the id of the request and that of the user exactly
  -- if they are known and not empty. The attributes of the record have distinct keys, as every
  -- dictionary's.
  pub json_payload-lookup :
      (key : Text)
      → HasDistinctKeys r.attributes
      → HasDistinctKeys whole
        × (lookup key whole
            ≡ or_else
                (exception_value key)
                (or_else (extra_value key r.attributes) (lookup key base)))
        × (lookup (codes "request_id") base ≡ Option.map text (truthy context.request_id))
        × (lookup (codes "user_id") base ≡ Option.map text (truthy context.user_id))
  json_payload-lookup key h =
      (whole-HasDistinctKeys, whole-lookup key h, base-request_id, base-user_id)
