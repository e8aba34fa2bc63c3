-- ===== src/Tests/Responses.antt =====
-- The HTTP layer at concrete inputs.
use secure_file_service.Api.Health.{Probe}
use secure_file_service.Api.BodyLimit.{
  other_event, limited_receive-IsLimited, http_request, limited_receive, Message, body_size,
}
use secure_file_service.Prelude.{[], ◌∷◌, codes, false, ◌≤◌, ◌↔◌, true, List, ◌≡◌}

abbrev messages : List Message
messages = http_request (codes "ab") ∷ other_event ∷ http_request (codes "cde") ∷ []

limited_receive-IsLimited_example :
    (body_size (limited_receive 4 0 messages).0 ≤ 4)
    × (((limited_receive 4 0 messages).1 ≡ false) ↔ (body_size messages ≤ 4))
    × ((limited_receive 4 0 messages).1 ≡ false → (limited_receive 4 0 messages).0 ≡ messages)
limited_receive-IsLimited_example = limited_receive-IsLimited 4 messages

abbrev probe : Probe
probe = record {
  ready = true;
  shutting_down = false;
  database_answers = false;
  storage_answers = true;
}
