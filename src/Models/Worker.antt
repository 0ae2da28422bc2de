-- ===== src/Models/Worker.antt =====
-- legacy/app/models/worker.py. A value of `Dict[str, Any]` is its JSON text; a `datetime` is a number
-- of microseconds; a percentage, which the code only passes on, is its text.
use taxlien_gateway.Prelude.{ℕ, Option, List, String}

pub record ProxyInfo : Type 0 where
  pub host : String
  pub port : ℕ
  pub type_name : String
  pub username : Option String
  pub password : Option String
  pub expires_at : Option ℕ

-- A priority is 1 (urgent) to 4 (low) by convention; nothing checks it.
pub record WorkTask : Type 0 where
  pub task_id : String
  pub type_name : String
  pub platform : String
  pub target : String
  pub priority : ℕ
  pub proxy : Option ProxyInfo
  pub created_at : ℕ

pub record WorkResponse : Type 0 where
  pub tasks : List WorkTask
  pub retry_after : ℕ

pub record ParcelResult : Type 0 where
  pub task_id : String
  pub parcel_id : String
  pub platform : String
  pub state : String
  pub county : String
  pub payload : String
  pub scraped_at : ℕ
  pub parse_duration_ms : ℕ
  pub raw_html_hash : Option String

pub record SubmitResponse : Type 0 where
  pub inserted : ℕ
  pub updated : ℕ
  pub failed : ℕ
  pub errors : List String

pub record WorkerStatus : Type 0 where
  pub active_tasks : ℕ
  pub completed_last_minute : ℕ
  pub failed_last_minute : ℕ
  pub platforms : List String
  pub cpu_percent : String
  pub memory_percent : String
