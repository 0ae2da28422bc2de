-- ===== src/Apps/Public.antt =====
-- legacy/app/apps/public.py: the public application with the handlers of its routes. What the router
-- answers itself (404, 405), the path parameter that it reads, and the JSON text of a report are
-- parameters.
use taxlien_gateway.Prelude.{Option, none, some, [], String}
use taxlien_gateway.Http.{Request, HttpResponse, Outcome, respond, crash}
use taxlien_gateway.Redis.{Redis}
use taxlien_gateway.Api
use taxlien_gateway.Api.{World, Env, UsageReport}
use taxlien_gateway.Gateway.{Handler}
use taxlien_gateway.Apps.Routes.{Endpoint, Matching, find_route}
use taxlien_gateway.Apps.{create_public_app}

abbrev pub json_ok : String → HttpResponse
json_ok content = record {
  status_code = 200;
  content = content;
  media_type = some "application/json";
  headers = [];
}

pub record Router : Type 0 where
  pub matching : Matching
  -- the value of the route's path parameter
  pub parameter_of : Request → String
  pub unrouted : Request → Outcome
  -- the body of a request, if it is JSON
  pub json_of : Request → Option String
  pub report_text : UsageReport → String

-- `health_check`
abbrev pub health_check : Outcome
health_check = respond (json_ok "{\"status\":\"ok\",\"service\":\"gateway\",\"app\":\"public\"}")

module _ (redis : Redis) (env : Env (Redis.State redis)) (router : Router) where
  open redis use {State}

  abbrev usage_outcome : Option UsageReport → Outcome
  usage_outcome none = crash
  usage_outcome (some report) = respond (json_ok (router.report_text report))

  abbrev pub handler_of : Endpoint → Handler (World State)
  handler_of e auth req w = elim e [
    | Endpoint.get_property ↦ Api.get_property redis env (router.parameter_of req) auth req w
    | Endpoint.search_properties ↦ Api.search_properties redis env auth req w
    | Endpoint.get_predictions_batch ↦
        Api.get_predictions_batch redis env (router.json_of req) auth req w
    | Endpoint.search_by_address ↦ Api.search_by_address redis env auth req w
    | Endpoint.search_by_owner ↦ Api.search_by_owner redis env auth req w
    | Endpoint.get_top_list ↦ Api.get_top_list redis env (router.parameter_of req) auth req w
    | Endpoint.get_usage ↦ (usage_outcome (Api.get_usage redis env auth w), w)
    | Endpoint.public_health ↦ (health_check, w)
    | _ ↦ (router.unrouted req, w)
  ]

  -- The router of the public application.
  unfoldable pub dispatch : Handler (World State)
  dispatch auth req w = elim (find_route router.matching create_public_app.routes req) [
    | none ↦ (router.unrouted req, w)
    | some e ↦ handler_of e auth req w
  ]
