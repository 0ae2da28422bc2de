-- ===== src/Lifecycle/Tests.antt =====
-- The theorems on connections and servers at concrete events.
use taxlien_gateway.Prelude.{
  Bool, str_eq, if◌then◌else◌, ◌≡◌, ◌⊎◌, ◌↔◌, refl, true, false, none, some, [], ◌∷◌, String,
}
use taxlien_gateway.Lifecycle.Manager.{
  Manager, new_manager, unreachable, reachable, client, get_redis, connect, asked, disconnected,
  happen_all, held_client_is_kept,
}
use taxlien_gateway.Lifecycle.Session.{
  Ends, exception, handle, commit, rollback, close, exit, get_db, AllFine, Failed, get_db_calls,
}
use taxlien_gateway.Lifecycle.Settings.{Settings}
use taxlien_gateway.Lifecycle.Servers.{interrupted, Firebase}
use taxlien_gateway.Lifecycle.Main.{Surroundings}

-- The server does not answer the first `ping`.
abbrev unanswered : Manager
unanswered = (connect unreachable new_manager).1

held_client_is_kept_example :
    (get_redis reachable (happen_all (asked reachable ∷ disconnected ∷ []) unanswered)
      ≡ (client 0, happen_all (asked reachable ∷ disconnected ∷ []) unanswered))
    × ((happen_all (asked reachable ∷ disconnected ∷ []) unanswered).made ≡ unanswered.made)
unfolding connect
held_client_is_kept_example =
    held_client_is_kept (asked reachable ∷ disconnected ∷ []) unanswered 0 reachable refl

abbrev failing_commit : Ends
failing_commit = record {
  handled = none;
  committed = some (exception "connection is closed");
  rolled_back = none;
  closed = none;
}

get_db_calls_example :
    (((failing_commit.handled ≡ none)
        × (¬ Failed failing_commit)
        × ((get_db failing_commit).1 ≡ handle ∷ commit ∷ close ∷ exit ∷ []))
      ⊎ ((failing_commit.handled ≡ none)
          × Failed failing_commit
          × ((get_db failing_commit).1 ≡ handle ∷ commit ∷ rollback ∷ close ∷ exit ∷ []))
      ⊎ ((¬ (failing_commit.handled ≡ none))
          × Failed failing_commit
          × ((get_db failing_commit).1 ≡ handle ∷ rollback ∷ close ∷ exit ∷ []))
      ⊎ ((¬ (failing_commit.handled ≡ none))
          × (¬ Failed failing_commit)
          × ((get_db failing_commit).1 ≡ handle ∷ close ∷ exit ∷ [])))
    × (((get_db failing_commit).0 ≡ none) ↔ AllFine failing_commit)
get_db_calls_example = get_db_calls failing_commit

abbrev settings : Settings
settings = record {
  host = "0.0.0.0";
  public_port = 8080;
  parcel_internal_port = 8081;
  party_internal_port = 8082;
  log_level = "INFO";
  debug = false;
  database_url = "postgresql+asyncpg://localhost/taxlien";
  firebase_project_id = none;
  firebase_credentials_path = none;
}

abbrev lower : String → String
lower s = if str_eq s "INFO" then "info" else s

abbrev works : Firebase → Bool
works f = true

-- A process that is interrupted while it serves.
abbrev surroundings : Surroundings
surroundings = record {
  lower = lower;
  upper = λ s. s;
  level = λ s. if str_eq s "INFO" then some 20 else none;
  knows = λ s. str_eq s "info";
  takes = λ url. true;
  works = works;
  attempt = reachable;
  serving = interrupted;
  redis_raises = false;
  db_raises = false;
}
