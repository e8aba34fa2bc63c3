-- ===== src/Api/BodyLimit.antt =====
-- `BodySizeLimitMiddleware` of app/api/middleware.py: the declared length is tested before the
-- application runs, and the bytes are counted while it receives them.
use secure_file_service.Prelude.{
  refl, inr, none, some, inl, Bool-cases, ap, arith, true, ◌&&◌, ◌||◌, [], ◌↔◌, ltb, codes, ◌∷◌,
  ◌+◌, text_eq, map, false, ◌==◌, ◌≤◌, length, if◌then◌else◌, Option, Bool, strip_end, List, ℕ,
  Text, ◌≡◌,
}

-- An ASGI message: a part of the body, or another event.
pub data Message : Type 0 where
  http_request : Text → Message
  other_event : Message

pub record BodyLimits : Type 0 where
  pub default_limit : ℕ
  pub upload_paths : List Text
  pub upload_limit : ℕ

abbrev pub strip_slashes : Text → Text
strip_slashes path = strip_end (λ c. c == b'/') path

abbrev pub is_path_in : Text → List Text → Bool
is_path_in path [] = false
is_path_in path (p ∷ ps) = text_eq p path || is_path_in path ps

-- `__init__`
unfoldable pub make_limits : ℕ → List Text → Option ℕ → BodyLimits
make_limits default_limit upload_paths none = record {
  default_limit = default_limit;
  upload_paths = map strip_slashes upload_paths;
  upload_limit = default_limit;
}
make_limits default_limit upload_paths (some limit) = record {
  default_limit = default_limit;
  upload_paths = map strip_slashes upload_paths;
  upload_limit = limit;
}

-- `_limit_for`
unfoldable pub limit_for : BodyLimits → Text → Text → ℕ
limit_for limits method path =
    if text_eq method (codes "POST") && is_path_in (strip_slashes path) limits.upload_paths
    then limits.upload_limit
    else limits.default_limit

-- What the application receives: the messages up to the first one that exceeds the limit, and
-- whether there was such a one.
unfoldable pub limited_receive : ℕ → ℕ → List Message → List Message × Bool
limited_receive limit received [] = ([], false)
limited_receive limit received (other_event ∷ messages) =
    let (passed, too_large) = limited_receive limit received messages in
    (other_event ∷ passed, too_large)
limited_receive limit received (http_request body ∷ messages) =
    let received' = received + length body in
    let (passed, too_large) = limited_receive limit received' messages in
    if ltb limit received' then ([], true) else (http_request body ∷ passed, too_large)

-- The bytes of the body.
unfoldable pub body_size : List Message → ℕ
body_size [] = 0
body_size (other_event ∷ messages) = body_size messages
body_size (http_request body ∷ messages) = length body + body_size messages

limited_receive-from :
    (limit received : ℕ) (messages : List Message)
    → received ≤ limit
    → let (passed, too_large) = limited_receive limit received messages in
      (received + body_size passed ≤ limit)
      × ((too_large ≡ false) ↔ (received + body_size messages ≤ limit))
      × (too_large ≡ false → passed ≡ messages)
unfolding limited_receive body_size
limited_receive-from limit received [] h =
    (omega arith, ((λ e. omega arith), (λ e. refl)), λ e. refl)
limited_receive-from limit received (other_event ∷ messages) h =
    let (low, (to, from), all) = limited_receive-from limit received messages h in
    (low, (to, from), λ e. ap (λ ms. other_event ∷ ms) (all e))
limited_receive-from limit received (http_request body ∷ messages) h =
    elim (Bool-cases (ltb limit (received + length body))) [
      | inl over ↦ (
        ground (arith, over),
        ((λ e. absurd (ground (arith, over, e))), (λ e. absurd (ground (arith, over, e)))),
        λ e. absurd (ground (arith, over, e)),
      )
      | inr fits ↦
          let (low, (to, from), all) =
            limited_receive-from limit (received + length body) messages (ground (arith, fits)) in
          (
            ground (arith, fits, low),
            ((λ e. ground (arith, fits, to, e)), (λ e. ground (arith, fits, from, e))),
            λ e. ground (arith, fits, all, e),
          )
    ]

-- The application never receives more bytes than the limit, however the body is cut into messages;
-- the body is refused exactly if it is longer than the limit, and otherwise every message arrives
-- unchanged.
pub limited_receive-IsLimited :
    (limit : ℕ) (messages : List Message)
    → let (passed, too_large) = limited_receive limit 0 messages in
      (body_size passed ≤ limit)
      × ((too_large ≡ false) ↔ (body_size messages ≤ limit))
      × (too_large ≡ false → passed ≡ messages)
limited_receive-IsLimited limit messages =
    let (low, (to, from), all) = limited_receive-from limit 0 messages (omega arith) in
    (omega (arith, low), ((λ e. omega (arith, to e)), (λ e. from (omega arith))), all)
