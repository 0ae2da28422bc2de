-- ===== src/Lifecycle/Settings.antt =====
-- What the start of legacy/app/main.py reads of the settings; legacy/app/core/config.py, where they
-- are declared, is not in the repository.
use taxlien_gateway.Prelude.{ℕ, Bool, Option, String}

pub record Settings : Type 0 where
  pub host : String
  pub public_port : ℕ
  pub parcel_internal_port : ℕ
  pub party_internal_port : ℕ
  pub log_level : String
  pub debug : Bool
  pub database_url : String
  pub firebase_project_id : Option String
  pub firebase_credentials_path : Option String
