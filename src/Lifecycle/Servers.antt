-- ===== src/Lifecycle/Servers.antt =====
-- legacy/app/main.py: `run_servers`, with `init_firebase` of legacy/app/core/auth.py.
use taxlien_gateway.Apps.{
  App, create_public_app, create_parcel_internal_app, create_party_internal_app,
}
use taxlien_gateway.Prelude.{
  ℕ, Bool, Option, none, some, List, [], ◌∷◌, ◌++◌, String, truthy, if◌then◌else◌,
}
use taxlien_gateway.Lifecycle.Settings.{Settings}
use taxlien_gateway.Lifecycle.Engine.{Engine, DatabaseManager}
use taxlien_gateway.Lifecycle.Manager.{Manager, Attempt, client, raised, connect, disconnect}

-- `init_firebase`: with a certificate or with the default credentials.
pub data Firebase : Type 0 where
  certificate : String → Firebase
  default_credentials : Firebase

abbrev credentials_of : Option String → Firebase
credentials_of none = default_credentials
credentials_of (some path) = if truthy (some path) then certificate path else default_credentials

-- What is initialised, if anything: nothing without a project, nor if the initialisation raises,
-- which is caught.
unfoldable pub init_firebase : Option String → Option String → (Firebase → Bool) → Option Firebase
init_firebase project credentials works =
    if truthy project
    then (if works (credentials_of credentials) then some (credentials_of credentials) else none)
    else none

-- `uvicorn.Server(uvicorn.Config(…))`
pub record Server : Type 0 where
  pub app : App
  pub host : String
  pub port : ℕ
  pub log_level : String

abbrev server_of : (String → String) → Settings → App → ℕ → Server
server_of lower settings app port = record {
  app = app;
  host = settings.host;
  port = port;
  log_level = lower settings.log_level;
}

-- The three servers; `lower` is `str.lower`.
abbrev pub servers_of : (String → String) → Settings → List Server
servers_of lower settings =
    server_of lower settings create_public_app settings.public_port
    ∷ server_of lower settings create_parcel_internal_app settings.parcel_internal_port
    ∷ server_of lower settings create_party_internal_app settings.party_internal_port
    ∷ []

-- How the three servers end: all of them return, one raises an `Exception`, or `run_servers` is
-- cancelled: since the process is interrupted, or one of them exits, as uvicorn's do where they
-- cannot listen at their port.
pub data Serving : Type 0 where
  finished failed interrupted exited : Serving

-- What is done, in order.
pub data Effect : Type 0 where
  firebase : Firebase → Effect
  serve_all : List Server → Effect
  disconnect_redis : Effect
  dispose : Engine → Effect

-- `db_manager.disconnect()`
abbrev pub disconnect_db : DatabaseManager → Effect
disconnect_db db = dispose db.engine

abbrev pub started : Option Firebase → List Effect
started none = []
started (some f) = firebase f ∷ []

-- How a part of the program ends: it returns, an `Exception` leaves it, an interruption does, or an
-- exit does.
pub data Ending : Type 0 where
  returned error interruption exit : Ending

pub record Run : Type 0 where
  pub effects : List Effect
  pub ending : Ending
  pub manager : Manager

-- An `Exception` of the servers is caught, and logged.
abbrev ending_of : Serving → Ending
ending_of finished = returned
ending_of failed = returned
ending_of interrupted = interruption
ending_of exited = exit

-- An exception of the cleanup leaves `asyncio.run`, but not where a server exits: then the exit
-- leaves it, and the exception of the cancelled `run_servers` is only logged.
abbrev raised_in_cleanup : Serving → Ending
raised_in_cleanup finished = error
raised_in_cleanup failed = error
raised_in_cleanup interrupted = error
raised_in_cleanup exited = exit

-- `run_servers` as `asyncio.run` runs it. `uvicorn.Config` raises a KeyError for the name of a level
-- that is not in uvicorn's LOG_LEVELS (`knows`), before the `try`, so that nothing is cleaned up.
-- `works` says which initialisations of Firebase raise nothing; the last two truth values say whether
-- the closing of Redis and of the database raises.
unfoldable pub run_servers :
    (String → String)
    → (String → Bool)
    → Settings
    → (Firebase → Bool)
    → Attempt
    → Serving
    → Bool
    → Bool
    → DatabaseManager
    → Manager
    → Run
run_servers lower knows settings works attempt serving redis_raises db_raises db m =
    let (given, m') = connect attempt m in
    let ready =
      init_firebase settings.firebase_project_id settings.firebase_credentials_path works in
    elim given [
      | raised ↦ record { effects = []; ending = error; manager = m' }
      | client c ↦
          let cleanup : List Effect =
            if redis_raises
            then disconnect_redis ∷ []
            else disconnect_redis ∷ disconnect_db db ∷ [] in
          if knows (lower settings.log_level)
          then record {
            effects = started ready ++ serve_all (servers_of lower settings) ∷ cleanup;
            ending =
                if redis_raises
                then raised_in_cleanup serving
                else if db_raises
                then raised_in_cleanup serving
                else ending_of serving;
            manager = disconnect m';
          }
          else record { effects = started ready; ending = error; manager = m' }
    ]
