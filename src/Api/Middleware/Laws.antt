-- ===== src/Api/Middleware/Laws.antt =====
-- What the stack of middleware adds to every response, and what it counts.
use secure_file_service.Prelude.TextLaws.{split_last-append}
use secure_file_service.Api.RouteTemplate.{route_template}
use secure_file_service.Api.BodyLimit.{limited_receive, limit_for, Message, BodyLimits}
use secure_file_service.Prelude.Utf8.{IsAscii}
use secure_file_service.Api.Validation.{is_key_char, all_chars}
use secure_file_service.Prelude.{
  refl, text_eq_iff, ◌||◌, ◌&&◌, is_truthy, text_eq, Bool-cases, inr, inl, ◌⊎◌, Bool, All-append,
  split_last, arith, Option-cases, ◌∷◌, codes, true, map, ◌++◌, Option, All, ◌≡◌, List, ℕ, Text, [],
  some,
}
use secure_file_service.Api.Middleware.{
  Admission, admission, new_request_id, valid_request_id, stack, request_id_for,
  request_id_middleware, access_log_middleware, body_size_middleware, add_request_id, status_of,
  refused, raises_error, admitted,
}
use secure_file_service.Api.Asgi.{
  header, Scope, Sent, response_start, response_body, in_progress_inc, in_progress_dec,
  requests_total, duration_observed, Run, App,
}

-- The start of a response has the request id as its last header.
abbrev pub Carries : Text → Sent → Type 0
Carries id (response_start status headers) =
    (before : List (Text × Text)) × (headers ≡ before ++ (codes "x-request-id", id) ∷ [])
Carries id (response_body bytes) = Unit

add_request_id-Carries :
    (id : Text) (sent : List Sent) → All (Carries id) (map (add_request_id id) sent)
unfolding add_request_id
add_request_id-Carries id [] = tt
add_request_id-Carries id (response_start status headers ∷ sent) =
    ((headers, refl), add_request_id-Carries id sent)
add_request_id-Carries id (response_body bytes ∷ sent) = (tt, add_request_id-Carries id sent)

status_of-add_request_id :
    (id : Text) (status : ℕ) (sent : List Sent)
    → status_of status (map (add_request_id id) sent) ≡ status_of status sent
unfolding status_of add_request_id
status_of-add_request_id id status [] = refl
status_of-add_request_id id status (response_start s headers ∷ sent) =
    status_of-add_request_id id s sent
status_of-add_request_id id status (response_body bytes ∷ sent) =
    status_of-add_request_id id status sent

key_chars-IsAscii : (s : Text) → all_chars is_key_char s ≡ true → All IsAscii s
unfolding all_chars
key_chars-IsAscii [] h = tt
key_chars-IsAscii (c ∷ s) h = (ground arith, key_chars-IsAscii s (ground arith))

valid_request_id-IsAscii : (s : Text) → valid_request_id s ≡ true → All IsAscii s
unfolding valid_request_id
valid_request_id-IsAscii s h = elim (Option-cases (split_last 10 s)) [
  | inl none_split ↦ key_chars-IsAscii s (ground (arith, h, none_split))
  | inr ((line, rest), split) ↦ elim (Bool-cases (all_chars is_key_char s)) [
    | inl plain ↦ key_chars-IsAscii s plain
    | inr other ↦
        let is : text_eq rest [] ≡ true = ground (arith, h, split, other) in
        let front : all_chars is_key_char line ≡ true = ground (arith, h, split, other) in
        let joined = (split_last-append 10 s line rest split).0 in
        let whole : s ≡ line ++ 10 ∷ [] = rw ((text_eq_iff rest []).0 is) at joined in
        rw whole (All-append IsAscii line (10 ∷ []) (key_chars-IsAscii line front) (ground arith))
  ]
]

request_id_for-cases :
    (hex : Text) (scope : Scope)
    → (request_id_for hex scope ≡ new_request_id hex)
      ⊎ ((incoming : Text) × (valid_request_id incoming ≡ true)
          × (request_id_for hex scope ≡ incoming))
unfolding request_id_for
request_id_for-cases hex scope = elim (Option-cases (header scope.headers (codes "x-request-id"))) [
  | inl absent ↦ inl (ground (arith, absent))
  | inr (incoming, given) ↦
      elim (Bool-cases (is_truthy (some incoming) && valid_request_id incoming)) [
        | inr other ↦ inl (ground (arith, given, other))
        | inl valid ↦ inr (incoming, ground (arith, valid), ground (arith, given, valid))
      ]
]

request_id_for-IsAscii :
    (hex : Text) (scope : Scope) → All IsAscii hex → All IsAscii (request_id_for hex scope)
request_id_for-IsAscii hex scope h = elim (request_id_for-cases hex scope) [
  | inl e ↦ rw e (All-append IsAscii (codes "req_") hex (ground arith) h)
  | inr (incoming, valid, e) ↦ rw e (valid_request_id-IsAscii incoming valid)
]

Admission-cases : (a : Admission) → (a ≡ refused) ⊎ (a ≡ raises_error) ⊎ (a ≡ admitted)
Admission-cases refused = inl refl
Admission-cases raises_error = inr (inl refl)
Admission-cases admitted = inr (inr refl)

body_size_middleware-silent :
    (json : ℕ → Option Text → Text) (limits : BodyLimits) (inner : App)
    → ((scope : Scope) (messages : List Message) (raises : Bool)
        → (inner scope messages raises).calls ≡ [])
    → (scope : Scope) (messages : List Message) (raises : Bool)
    → (body_size_middleware json limits inner scope messages raises).calls ≡ []
unfolding body_size_middleware
body_size_middleware-silent json limits inner silent scope messages raises =
    let limit = limit_for limits scope.method scope.path in
    elim (Bool-cases scope.is_http) [
      | inr other ↦ ground (arith, other, silent scope messages raises)
      | inl http ↦
          elim (Admission-cases (admission limit (header scope.headers (codes "content-length")))) [
            | inl e ↦ ground (arith, http, e)
            | inr (inl e) ↦ ground (arith, http, e)
            | inr (inr e) ↦
                let (passed, over) = limited_receive limit 0 messages in
                ground (arith, http, e, silent scope passed (over || raises))
          ]
    ]

-- The stack on an HTTP request.
abbrev stacked : Text → App → Scope → List Message → Bool → Run
stacked hex sized scope messages raises =
    let id = request_id_for hex scope in
    let r = sized (record scope { request_id = some id }) messages raises in
    let route = route_template scope.path r.path_params in
    record {
      sent = map (add_request_id id) r.sent;
      raised = r.raised;
      calls =
          in_progress_inc scope.method ∷ r.calls
          ++ in_progress_dec scope.method
            ∷ requests_total scope.method route (status_of 500 r.sent)
            ∷ duration_observed scope.method route
            ∷ [];
      path_params = r.path_params;
    }

stack-run :
    (hex : Text) (json : ℕ → Option Text → Text) (limits : BodyLimits) (inner : App) (scope : Scope)
    (messages : List Message) (raises : Bool)
    → scope.is_http ≡ true
    → stack hex json limits inner scope messages raises
      ≡ stacked hex (body_size_middleware json limits inner) scope messages raises
unfolding stack request_id_middleware access_log_middleware
stack-run hex json limits inner scope messages raises http = ground (arith, http)

-- Whatever the application does on an HTTP request, raising included, if it does not touch the HTTP
-- metrics itself: every response that is started ends its headers with the request id, the id is
-- ASCII, so encoding it cannot fail, if the random part of a new one is; and exactly one request is
-- counted, with the status that was sent last, or 500 if none was, while the gauge of requests in
-- progress goes up by one and down by one.
pub stack-IsAccounted :
    (hex : Text) (json : ℕ → Option Text → Text) (limits : BodyLimits) (inner : App) (scope : Scope)
    (messages : List Message) (raises : Bool)
    → All IsAscii hex
    → ((s : Scope) (ms : List Message) (b : Bool) → (inner s ms b).calls ≡ [])
    → scope.is_http ≡ true
    → let r = stack hex json limits inner scope messages raises in
      let id = request_id_for hex scope in
      let route = route_template scope.path r.path_params in
      All (Carries id) r.sent
      × All IsAscii id
      × (r.calls
          ≡ in_progress_inc scope.method
            ∷ in_progress_dec scope.method
            ∷ requests_total scope.method route (status_of 500 r.sent)
            ∷ duration_observed scope.method route
            ∷ [])
stack-IsAccounted hex json limits inner scope messages raises ascii silent http =
    let id = request_id_for hex scope in
    let inside = record scope { request_id = some id } in
    let r = body_size_middleware json limits inner inside messages raises in
    let quiet = body_size_middleware-silent json limits inner silent inside messages raises in
    rw (stack-run hex json limits inner scope messages raises http) (
      add_request_id-Carries id r.sent,
      request_id_for-IsAscii hex scope ascii,
      ground (arith, quiet, status_of-add_request_id id 500 r.sent),
    )
