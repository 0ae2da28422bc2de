-- ===== src/Lifecycle/Main.antt =====
-- legacy/app/main.py: the whole process, from the imports that make the managers to its exit.
use taxlien_gateway.Prelude.{ℕ, ◌≡◌, ◌≢◌, ◌⊎◌, Bool, false, Option, none, some, List, [], String}
use taxlien_gateway.Lifecycle.Settings.{Settings}
use taxlien_gateway.Lifecycle.Engine.{DatabaseManager, new_database_manager}
use taxlien_gateway.Lifecycle.Logging.{LogConfig, setup_logging}
use taxlien_gateway.Lifecycle.Manager.{Manager, new_manager, Attempt, reachable}
use taxlien_gateway.Lifecycle.Servers.{
  Firebase, Serving, Effect, Ending, returned, error, interruption, exit, Run, run_servers,
}

-- What the process meets: the string methods, the names of the levels of logging and those of
-- uvicorn, the addresses that SQLAlchemy takes, and how the calls of other libraries end.
pub record Surroundings : Type 0 where
  pub lower : String → String
  pub upper : String → String
  pub level : String → Option ℕ
  pub knows : String → Bool
  pub takes : String → Bool
  pub works : Firebase → Bool
  pub attempt : Attempt
  pub serving : Serving
  pub redis_raises : Bool
  pub db_raises : Bool

-- What the process has done, and how it ends.
pub record Process : Type 0 where
  pub logging : Option LogConfig
  pub effects : List Effect
  pub manager : Manager
  pub ending : Ending

-- `except KeyboardInterrupt: pass`
abbrev pub caught : Ending → Ending
caught returned = returned
caught error = error
caught interruption = returned
caught exit = exit

-- `asyncio.run(run_servers())` with the new managers.
abbrev pub served : Surroundings → Settings → DatabaseManager → Run
served w settings db =
    run_servers w.lower w.knows settings w.works w.attempt w.serving w.redis_raises w.db_raises db
      new_manager

-- The import of legacy/app/core/db.py makes the engine; then logging is set up, and the servers run.
unfoldable pub main : Surroundings → Settings → Process
main w settings = elim (new_database_manager w.takes settings) [
  | none ↦ record { logging = none; effects = []; manager = new_manager; ending = error }
  | some db ↦ elim (setup_logging w.upper w.level settings) [
    | none ↦ record { logging = none; effects = []; manager = new_manager; ending = error }
    | some config ↦ record {
      logging = some config;
      effects = (served w settings db).effects;
      manager = (served w settings db).manager;
      ending = caught (served w settings db).ending;
    }
  ]
]

-- What keeps the servers from running: an address that SQLAlchemy does not take, no level of that
-- name, or no connection to Redis.
abbrev pub Refused : Surroundings → Settings → Type 0
Refused w settings =
    (w.takes settings.database_url ≡ false)
    ⊎ (w.level (w.upper settings.log_level) ≡ none)
    ⊎ (w.attempt ≢ reachable)
