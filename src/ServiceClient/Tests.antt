-- ===== src/ServiceClient/Tests.antt =====
-- The clients' theorems at concrete clients and replies.
use taxlien_gateway.Prelude.{ℕ, ◌+◌, ◌≡◌, refl, none, List, [], ◌∷◌, put, empty_dict, arith, false}
use taxlien_gateway.Breaker.{open_circuit, new_breaker, can_execute}
use taxlien_gateway.ServiceClient.{
  Breakers, ServiceClient, Call, Reply, answered, request_error, timeout_error, circuit_is_open,
  breaker_of, request, default_timeout,
}
use taxlien_gateway.ServiceClient.Failing.{Attempt, attempts, failing_service_is_shut_off}

abbrev parser : ServiceClient
parser = record { base_url = "http://parser"; service_name = "parser" }

abbrev other_parser : ServiceClient
other_parser = record { base_url = "http://parser-2"; service_name = "parser" }

abbrev a_call : Call
a_call = record {
  method = "GET";
  path = "/api/v1/properties";
  params = none;
  json = none;
  headers = none;
  timeout = default_timeout;
}

abbrev server_error : Reply
server_error = answered (record { status_code = 503; content = ""; media_type = none })

abbrev failing_call : Reply → ℕ → Attempt
failing_call r t = record { client = parser; call = a_call; started = t; ended = t + 1; reply = r }

abbrev start : Breakers
start = put empty_dict "parser" new_breaker

abbrev tripped : Breakers
tripped =
    put empty_dict "parser"
      (record new_breaker { state = open_circuit; failures = 5; last_failure_time = 7 })

refused_now : (can_execute 8 (breaker_of tripped "parser")).0 ≡ false
unfolding can_execute breaker_of
refused_now = refl

abbrev first_failure : Attempt
first_failure = failing_call server_error 10

abbrev more_failures : List Attempt
more_failures =
    failing_call request_error 20
    ∷ failing_call timeout_error 30
    ∷ failing_call server_error 40
    ∷ failing_call server_error 50
    ∷ []

failing_service_is_shut_off_example :
    (request 60 61
      (λ d. d)
      (λ _ _. request_error)
      other_parser
      a_call
      (attempts (first_failure ∷ more_failures) start)).0
    ≡ circuit_is_open
unfolding breaker_of
failing_service_is_shut_off_example =
    failing_service_is_shut_off "parser" first_failure more_failures start other_parser a_call 60 61
      (λ d. d) (λ _ _. request_error)
      (refl, omega arith, (refl, tt, (refl, tt, (refl, omega arith, (refl, omega arith, tt))))) refl
      refl refl (omega arith)
