-- ===== src/Tests/Endpoints.antt =====
-- The owner endpoints over two owners' files.
use secure_file_service.Api.Endpoints.Disclosure.{missing_response, foreign_is_missing}
use secure_file_service.Prelude.Results.{ok}
use secure_file_service.Api.Endpoints.Privacy.{serve_owner-IsPrivate, others}
use secure_file_service.Persistence.FileRepository.{has_id_and_owner}
use secure_file_service.Prelude.Utf8.{encode_char, utf8_replace}
use secure_file_service.Security.Authenticator.{match_entries, authenticate}
use secure_file_service.Persistence.AuditRepository.Laws.{IsClean}
use secure_file_service.Application.Revocation.{HasUniqueIds}
use secure_file_service.Api.Http.{Body, Response}
use secure_file_service.Application.World.{World}
use secure_file_service.Persistence.Session.{Occurs, View}
use secure_file_service.Persistence.Models.{FileModel}
use secure_file_service.Security.Signer.{UrlSigner}
use secure_file_service.Tests.Memory.{
  toy_b64, toy_hmac, objects, object_laws, memory, Objects, memory_laws,
}
use secure_file_service.Prelude.{
  refl, arith, ◌≢◌, ◌∙◌, ◌⊎◌, sym, ◌≡◌, text_eq, List, Text, codes, none, some, [], ◌∷◌, inl, inr,
}
use secure_file_service.Api.Endpoints.{OwnerRequest, delete_file, get_file, Caller, serve_owner}
use secure_file_service.Application.CreateLink.{LinkSettings}

abbrev settings : LinkSettings
settings = record { public_base_url = codes "http://x"; default_ttl = 5; max_ttl = 9 }

abbrev signer : UrlSigner
signer = record { keys = (codes "k", codes "s") ∷ []; active = codes "k" }

abbrev file_of : Text → Text → Text → FileModel
file_of id owner key = record {
  id = id;
  owner_id = owner;
  original_filename = codes "a.txt";
  content_type = codes "text/plain";
  size_bytes = 3;
  sha256 = codes "abc";
  storage_key = key;
  status = codes "available";
  idempotency_key = none;
  created_at = 0;
  updated_at = 0;
  deleted_at = none;
}

abbrev anns : FileModel
anns = file_of (codes "f") (codes "ann") (codes "0")

abbrev bobs : FileModel
bobs = file_of (codes "g") (codes "bob") (codes "1")

abbrev view : View
view = record {
  files = anns ∷ bobs ∷ [];
  events = [];
  staged = [];
  durable_files = anns ∷ bobs ∷ [];
  durable_events = [];
}

abbrev world : World View Objects
world = record {
  session = view;
  storage = record { drawn = 2; object = λ k. some (codes "abc") };
  metrics = [];
}

abbrev entries : List (Text × Text)
entries = (codes "ann-key", codes "ann") ∷ []

abbrev ann : Caller
ann = record {
  api_key = some (codes "ann-key");
  context = record { request_id = none; client_ip = none };
}

abbrev delete_own : OwnerRequest
delete_own = delete_file (codes "f") (record { now = 3000000; event_id = codes "e" })

abbrev get_foreign : OwnerRequest
get_foreign = get_file (codes "g")

abbrev run : OwnerRequest → Response Body × World View Objects
run request =
    serve_owner memory objects toy_hmac toy_b64 signer settings 10 entries ann request world

unique : HasUniqueIds (memory_laws.view world.session).durable_files
unfolding memory_laws
unique a b (inl sa) (inl sb) e = sym sa ∙ sb
unique a b (inl sa) (inr (inl sb)) e = absurd (ground (arith, sa, sb, e))
unique a b (inr (inl sa)) (inl sb) e = absurd (ground (arith, sa, sb, e))
unique a b (inr (inl sa)) (inr (inl sb)) e = sym sa ∙ sb
unique a b (inr (inr later)) there e = absurd later
unique a b (inl sa) (inr (inr later)) e = absurd later
unique a b (inr (inl sa)) (inr (inr later)) e = absurd later

is_clean : IsClean (memory_laws.view world.session)
unfolding memory_laws
is_clean = refl

serve_owner-IsPrivate_example :
    ((authenticate entries ann.api_key ≡ none)
      × ((run delete_own).1 ≡ world)
      × ((run delete_own).0.status ≡ 401))
    ⊎ ((user : Text) × (authenticate entries ann.api_key ≡ some user)
        × (others user (memory_laws.view (run delete_own).1.session).durable_files
            ≡ others user (memory_laws.view world.session).durable_files))
serve_owner-IsPrivate_example =
    serve_owner-IsPrivate memory memory_laws objects object_laws toy_hmac toy_b64 signer settings 10
      entries ann delete_own world is_clean unique

ann_known : authenticate entries ann.api_key ≡ some (codes "ann")
unfolding authenticate text_eq utf8_replace encode_char match_entries
ann_known = refl

none_found :
    memory.first_file (has_id_and_owner (codes "g") (codes "ann")) world.session ≡ (ok none, view)
unfolding memory text_eq
none_found = refl

not_anns :
    (m : FileModel)
    → Occurs m (memory_laws.view world.session).files
    → m.id ≡ codes "g"
    → m.owner_id ≢ codes "ann"
unfolding memory_laws
not_anns m (inl same) e own = ground (arith, same, e)
not_anns m (inr (inl same)) e own = ground (arith, same, own)
not_anns m (inr (inr later)) e own = absurd later

foreign_is_missing_example :
    run get_foreign ≡ (missing_response none, record world { session = memory.rollback view })
foreign_is_missing_example =
    foreign_is_missing memory memory_laws objects toy_hmac toy_b64 signer settings 10 entries ann
      get_foreign world (codes "ann") (codes "g") none view ann_known refl tt none_found not_anns
