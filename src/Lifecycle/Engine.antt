-- ===== src/Lifecycle/Engine.antt =====
-- legacy/app/core/db.py: the class `DatabaseManager`. SQLAlchemy is not in the repository: what it is
-- handed is a record, and whether it takes the address is a parameter.
use taxlien_gateway.Prelude.{Bool, true, false, Option, none, some, String, if◌then◌else◌}
use taxlien_gateway.Lifecycle.Settings.{Settings}

-- `create_async_engine(url, echo=…, future=…)`
pub record Engine : Type 0 where
  pub url : String
  pub echo : Bool
  pub future : Bool

-- `async_sessionmaker(engine, class_=AsyncSession, expire_on_commit=…)`
pub record SessionMaker : Type 0 where
  pub engine : Engine
  pub expire_on_commit : Bool

pub record DatabaseManager : Type 0 where
  pub engine : Engine
  pub async_session_maker : SessionMaker

abbrev pub engine_of : Settings → Engine
engine_of settings = record { url = settings.database_url; echo = settings.debug; future = true }

-- `DatabaseManager()`, which the import of the module calls: `none` is an exception.
unfoldable pub new_database_manager : (String → Bool) → Settings → Option DatabaseManager
new_database_manager takes settings =
    let engine = engine_of settings in
    if takes engine.url
    then some (record {
      engine = engine;
      async_session_maker = record { engine = engine; expire_on_commit = false };
    })
    else none
