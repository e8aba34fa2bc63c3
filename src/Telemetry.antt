-- ===== src/Telemetry.antt =====
-- app/core/telemetry.py: the metrics of the service, and how the calls of the handlers, of the
-- middleware and of the engine use them. The values of the metrics are kept by the Prometheus client.
use secure_file_service.Prelude.Decimal.{decimal}
use secure_file_service.Prelude.{
  ◌≡◌, if◌then◌else◌, text_eq, Option, Bool, codes, ℕ, List, Text, [], none, some, refl, ◌&&◌, ◌∷◌,
  true, false,
}
use secure_file_service.Application.World.{
  MetricCall, Reason, upload_failures, files_uploaded, upload_bytes, links_generated, downloads,
  download_failures, files_deleted,
}
use secure_file_service.Api.Asgi.{
  HttpMetric, in_progress_inc, in_progress_dec, requests_total, duration_observed,
}

pub data Kind : Type 0 where
  counter gauge histogram : Kind

-- One metric, with the names of its labels.
pub record Family : Type 0 where
  pub kind : Kind
  pub name : Text
  pub label_names : List Text

abbrev unlabelled : Kind → Text → Family
unlabelled kind name = record { kind = kind; name = name; label_names = [] }

-- `Metrics.__init__`
unfoldable pub families : List Family
families =
    record {
      kind = counter;
      name = codes "http_requests_total";
      label_names = codes "method" ∷ codes "route" ∷ codes "status_code" ∷ [];
    }
    ∷ record {
      kind = histogram;
      name = codes "http_request_duration_seconds";
      label_names = codes "method" ∷ codes "route" ∷ [];
    }
    ∷ record {
      kind = gauge;
      name = codes "http_requests_in_progress";
      label_names = codes "method" ∷ [];
    }
    ∷ unlabelled counter (codes "files_uploaded_total")
    ∷ unlabelled counter (codes "upload_bytes_total")
    ∷ record {
      kind = counter;
      name = codes "upload_failures_total";
      label_names = codes "reason" ∷ [];
    }
    ∷ unlabelled counter (codes "links_generated_total")
    ∷ unlabelled counter (codes "downloads_total")
    ∷ record {
      kind = counter;
      name = codes "download_failures_total";
      label_names = codes "reason" ∷ [];
    }
    ∷ unlabelled counter (codes "files_deleted_total")
    ∷ unlabelled histogram (codes "db_query_duration_seconds")
    ∷ unlabelled gauge (codes "db_pool_connections")
    ∷ []

-- The methods of the metrics.
pub data Method : Type 0 where
  inc : ℕ → Method
  dec observe : Method

-- A call: on which metric, with which labels, and which method.
pub record MetricUse : Type 0 where
  pub metric : Text
  pub labels : List (Text × Text)
  pub method : Method

abbrev plain_use : Text → Method → MetricUse
plain_use metric method = record { metric = metric; labels = []; method = method }

-- The calls of the handlers, in app/application.
unfoldable pub handler_use : (Reason → Text) → MetricCall → MetricUse
handler_use text (upload_failures reason) = record {
  metric = codes "upload_failures_total";
  labels = (codes "reason", text reason) ∷ [];
  method = inc 1;
}
handler_use text files_uploaded = plain_use (codes "files_uploaded_total") (inc 1)
handler_use text (upload_bytes n) = plain_use (codes "upload_bytes_total") (inc n)
handler_use text links_generated = plain_use (codes "links_generated_total") (inc 1)
handler_use text downloads = plain_use (codes "downloads_total") (inc 1)
handler_use text (download_failures reason) = record {
  metric = codes "download_failures_total";
  labels = (codes "reason", text reason) ∷ [];
  method = inc 1;
}
handler_use text files_deleted = plain_use (codes "files_deleted_total") (inc 1)

-- The calls of `AccessLogMiddleware`.
unfoldable pub middleware_use : HttpMetric → MetricUse
middleware_use (in_progress_inc m) = record {
  metric = codes "http_requests_in_progress";
  labels = (codes "method", m) ∷ [];
  method = inc 1;
}
middleware_use (in_progress_dec m) = record {
  metric = codes "http_requests_in_progress";
  labels = (codes "method", m) ∷ [];
  method = dec;
}
middleware_use (requests_total m route status) = record {
  metric = codes "http_requests_total";
  labels =
      (codes "method", m) ∷ (codes "route", route) ∷ (codes "status_code", decimal status) ∷ [];
  method = inc 1;
}
middleware_use (duration_observed m route) = record {
  metric = codes "http_request_duration_seconds";
  labels = (codes "method", m) ∷ (codes "route", route) ∷ [];
  method = observe;
}

-- The calls of `_instrument`, in app/infrastructure/database/session.py.
pub data EngineMetric : Type 0 where
  query_observed checked_out checked_in : EngineMetric

unfoldable pub engine_use : EngineMetric → MetricUse
engine_use query_observed = plain_use (codes "db_query_duration_seconds") observe
engine_use checked_out = plain_use (codes "db_pool_connections") (inc 1)
engine_use checked_in = plain_use (codes "db_pool_connections") dec

-- What the Prometheus client accepts: exactly the labels of the metric, here in the order of its
-- names, and a method that the kind has.
unfoldable pub find_family : Text → List Family → Option Family
find_family name [] = none
find_family name (f ∷ fs) = if text_eq f.name name then some f else find_family name fs

abbrev has_method : Kind → Method → Bool
has_method counter (inc n) = true
has_method gauge (inc n) = true
has_method gauge dec = true
has_method histogram observe = true
has_method _ _ = false

unfoldable pub same_names : List (Text × Text) → List Text → Bool
same_names [] [] = true
same_names [] (n ∷ ns) = false
same_names (l ∷ ls) [] = false
same_names ((k, v) ∷ ls) (n ∷ ns) = text_eq k n && same_names ls ns

abbrev fits : Option Family → MetricUse → Bool
fits none use' = false
fits (some f) use' = same_names use'.labels f.label_names && has_method f.kind use'.method

unfoldable pub accepts : List Family → MetricUse → Bool
accepts fs use' = fits (find_family use'.metric fs) use'

accepts-handler_use :
    (text : Reason → Text) (c : MetricCall) → accepts families (handler_use text c) ≡ true
unfolding accepts families find_family same_names text_eq handler_use
accepts-handler_use text (upload_failures reason) = refl
accepts-handler_use text files_uploaded = refl
accepts-handler_use text (upload_bytes n) = refl
accepts-handler_use text links_generated = refl
accepts-handler_use text downloads = refl
accepts-handler_use text (download_failures reason) = refl
accepts-handler_use text files_deleted = refl

accepts-middleware_use : (h : HttpMetric) → accepts families (middleware_use h) ≡ true
unfolding accepts families find_family same_names text_eq middleware_use
accepts-middleware_use (in_progress_inc m) = refl
accepts-middleware_use (in_progress_dec m) = refl
accepts-middleware_use (requests_total m route status) = refl
accepts-middleware_use (duration_observed m route) = refl

accepts-engine_use : (e : EngineMetric) → accepts families (engine_use e) ≡ true
unfolding accepts families find_family same_names text_eq engine_use
accepts-engine_use query_observed = refl
accepts-engine_use checked_out = refl
accepts-engine_use checked_in = refl

-- Every call on a metric, by a handler, by the middleware or by the instrumented engine, whatever
-- its arguments, names a metric that is registered, gives exactly the labels that the metric was
-- registered with, and calls a method that its kind has.
pub families-accepts :
    (text : Reason → Text) (c : MetricCall) (h : HttpMetric) (e : EngineMetric)
    → (accepts families (handler_use text c) ≡ true)
      × (accepts families (middleware_use h) ≡ true)
      × (accepts families (engine_use e) ≡ true)
families-accepts text c h e =
    (accepts-handler_use text c, accepts-middleware_use h, accepts-engine_use e)
