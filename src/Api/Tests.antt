-- ===== src/Api/Tests.antt =====
-- The handlers' theorems at concrete requests.
use taxlien_gateway.Prelude.{
  NoColon, ◌≢◌, String, eq_iff, arith, ◌≡◌, refl, false, some, [], put, empty_dict,
}
use taxlien_gateway.Http.{Request, Outcome, http_exception}
use taxlien_gateway.Models.Auth.{AuthContext, member, claimed, premium, no_auth}
use taxlien_gateway.Redis.{counted}
use taxlien_gateway.Redis.Memory.{Store, memory, empty_store}
use taxlien_gateway.Metrics.{no_metrics}
use taxlien_gateway.Breaker.{open_circuit, new_breaker, can_execute}
use taxlien_gateway.ServiceClient.{Response, Reply, answered, breaker_of}
use taxlien_gateway.Usage.{limit_for, usage_key}
use taxlien_gateway.Api.Reports.{anonymous_calls_are_not_reported}
use taxlien_gateway.Api.{get_usage, enforce_tier, World, Env}

abbrev page : Response
page = record { status_code = 200; content = "{}"; media_type = some "application/json" }

abbrev env_answering : Reply → Env Store
env_answering reply = record {
  day = "2026-01-31";
  started = 8;
  ended = 9;
  meanwhile = λ w. w;
  send = λ client call. reply;
  parser_url = "http://parser";
  ml_url = "http://ml";
}

abbrev world : World Store
world = record {
  redis = empty_store;
  breakers = put empty_dict "parser" new_breaker;
  registry = no_metrics;
}

abbrev req : Request
req = record {
  method = "GET";
  path = "/v1/properties";
  headers = empty_dict;
  query_params = [];
  client_host = some "10.0.0.1";
}

abbrev user : AuthContext
user = record no_auth { user_id = some "u1"; tier = member premium }

abbrev claiming_user : AuthContext
claiming_user = record no_auth { user_id = some "u1"; tier = claimed "premium" }

abbrev refused : Outcome × World Store
refused = (http_exception 403 "TIER_LIMIT_EXCEEDED", world)

abbrev tripped_world : World Store
tripped_world = record {
  redis = empty_store;
  breakers =
      put empty_dict "parser"
        (record new_breaker { state = open_circuit; failures = 5; last_failure_time = 7 });
  registry = no_metrics;
}

refused_now : (can_execute 8 (breaker_of tripped_world.breakers "parser")).0 ≡ false
unfolding can_execute breaker_of
refused_now = refl

host-NoColon : NoColon "10.0.0.1"
host-NoColon = ground arith

host-ne-anonymous : ◌≢◌ {A = String} "10.0.0.1" "anonymous"
host-ne-anonymous = ground (arith, eq_iff "10.0.0.1" "anonymous")

anonymous_calls_are_not_reported_example :
    let env = env_answering (answered page) in
    let w = (enforce_tier memory env "daily_details" no_auth req world).1 in
    (counted (w.redis.strings (usage_key "10.0.0.1" "daily_details" "2026-01-31")) ≡ some 1)
    × (get_usage memory env no_auth w ≡ get_usage memory env no_auth world)
unfolding limit_for
anonymous_calls_are_not_reported_example =
    anonymous_calls_are_not_reported memory (env_answering (answered page)) no_auth req
      "daily_details" "10.0.0.1" 9 0 world refl refl host-NoColon host-ne-anonymous refl refl
