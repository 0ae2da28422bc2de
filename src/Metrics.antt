-- ===== src/Metrics.antt =====
-- legacy/app/core/metrics.py: the counter and the histogram of Prometheus, and what
-- PrometheusMiddleware records of a request. The text that `generate_latest` makes of them is a
-- parameter.
use taxlien_gateway.Prelude.{
  ℕ, suc, ◌==◌, Bool, ◌&&◌, Option, none, some, List, [], ◌∷◌, String, str_eq, if◌then◌else◌,
}
use taxlien_gateway.Http.{Request, HttpResponse, Outcome, respond, http_exception, crash}
use taxlien_gateway.Models.Auth.{AuthContext, tier_text}

-- The labels of REQUEST_COUNT.
pub record Labels : Type 0 where
  pub method : String
  pub endpoint : String
  pub status : ℕ
  pub tier : String

abbrev pub same_labels : Labels → Labels → Bool
same_labels a b =
    str_eq a.method b.method
    && str_eq a.endpoint b.endpoint
    && (a.status == b.status)
    && str_eq a.tier b.tier

-- REQUEST_COUNT, and REQUEST_LATENCY by what was observed, the latest first.
pub record Registry : Type 0 where
  pub requests : Labels → ℕ
  pub latencies : String → String → List ℕ

abbrev pub no_metrics : Registry
no_metrics = record { requests = λ l. 0; latencies = λ method endpoint. [] }

-- `REQUEST_COUNT.labels(…).inc()`
unfoldable pub count_request : Labels → Registry → Registry
count_request labels r = record r {
  requests = λ l. if same_labels labels l then suc (r.requests l) else r.requests l;
}

-- `REQUEST_LATENCY.labels(…).observe(duration)`
unfoldable pub observe : String → String → ℕ → Registry → Registry
observe method endpoint duration r = record r {
  latencies = λ m e.
      if str_eq method m && str_eq endpoint e then duration ∷ r.latencies m e else r.latencies m e;
}

-- The label "tier": that of the request's context, if it has one.
abbrev pub tier_label : Option AuthContext → String
tier_label none = "anonymous"
tier_label (some auth) = tier_text auth.tier

-- The status of what `call_next` returns: an HTTPException is a response by then, and another
-- exception is raised on.
abbrev pub status_of : Outcome → Option ℕ
status_of (respond r) = some r.status_code
status_of (http_exception status detail) = some status
status_of crash = none

-- `PrometheusMiddleware.dispatch` after `call_next`: nothing is recorded when that raises.
unfoldable pub record_request : ℕ → Option AuthContext → Request → Outcome → Registry → Registry
record_request duration auth req outcome r = elim (status_of outcome) [
  | none ↦ r
  | some status ↦
      let labels : Labels = record {
        method = req.method;
        endpoint = req.path;
        status = status;
        tier = tier_label auth;
      } in
      observe req.method req.path duration (count_request labels r)
]

-- `metrics_response`
abbrev pub metrics_response : (Registry → String) → String → Registry → HttpResponse
metrics_response generate_latest content_type_latest r = record {
  status_code = 200;
  content = generate_latest r;
  media_type = some content_type_latest;
  headers = [];
}
