-- ===== src/Results.antt =====
-- legacy/app/api/internal/parcel/results.py (and the same handler of legacy/app/api/internal/party)
-- and legacy/app/services/properties.py: workers submit results.
pub mod Counts
pub mod Persist
pub mod Loss
mod Tests
use taxlien_gateway.Prelude.{
  ℕ, ◌+◌, ◌⊎◌, inl, inr, Bool, true, false, Option, none, some, List, [], ◌∷◌, ◌++◌, String,
  or_else, if◌then◌else◌,
}
use taxlien_gateway.Models.Auth.{AuthContext}
use taxlien_gateway.Models.Worker.{ParcelResult, SubmitResponse}
use taxlien_gateway.Redis.{Redis}
use taxlien_gateway.Database.{
  ParcelKey, Parcel, Column, payload_column, scraped_at_column, worker_id_column, Upsert, Database,
}
use taxlien_gateway.WorkerQueue.{Codec, complete_task}

abbrev pub key_of : ParcelResult → ParcelKey
key_of result = record {
  parcel_id = result.parcel_id;
  platform = result.platform;
  state = result.state;
  county = result.county;
}

-- `update_stmt`
abbrev pub update_stmt : ParcelResult → String → Upsert
update_stmt result worker_id = record {
  values = record {
    key = key_of result;
    payload = result.payload;
    scraped_at = result.scraped_at;
    worker_id = worker_id;
  };
  sets = payload_column ∷ scraped_at_column ∷ worker_id_column ∷ [];
}

abbrev pub no_results : SubmitResponse
no_results = record { inserted = 0; updated = 0; failed = 0; errors = [] }

abbrev pub count_new : Bool → SubmitResponse → SubmitResponse
count_new is_new r =
    if is_new then record r { inserted = r.inserted + 1 } else record r { updated = r.updated + 1 }

-- `except Exception as e`
abbrev pub count_failed : String → SubmitResponse → SubmitResponse
count_failed e r = record r { failed = r.failed + 1; errors = r.errors ++ e ∷ [] }

-- What the loop has come to: the numbers, Redis and the session.
pub record Work (Queue Session : Type 0) : Type 0 where
  pub response : SubmitResponse
  pub queue : Queue
  pub session : Session

-- `task_error` is the text of an exception of `complete_task`.
module _ (redis : Redis) (db : Database) (codec : Codec) (task_error : String) where
  open redis use {State}
  open db use {Session, execute, commit}

  -- The text of the exception, or the answer, which is true in every case.
  unfoldable pub upsert_parcel : ParcelResult → String → Session → (String ⊎ Bool) × Session
  upsert_parcel result worker_id d =
      let (raised, d') = execute (update_stmt result worker_id) d in
      (elim raised [ none ↦ inr true | some e ↦ inl e ], d')

  -- One round of the loop of `submit_results`.
  unfoldable pub process : String → ParcelResult → Work State Session → Work State Session
  process worker_id result w =
      let (upserted, d) = upsert_parcel result worker_id w.session in
      let (done, s) = complete_task redis codec worker_id result.task_id w.queue in
      elim upserted [
        | inl e ↦ record { response = count_failed e w.response; queue = w.queue; session = d }
        | inr is_new ↦
            let counted = count_new is_new w.response in
            record {
              response = elim done [ none ↦ count_failed task_error counted | some b ↦ counted ];
              queue = s;
              session = d;
            }
      ]

  unfoldable pub process_all : String → List ParcelResult → Work State Session → Work State Session
  process_all worker_id [] w = w
  process_all worker_id (r ∷ rs) w = process_all worker_id rs (process worker_id r w)

  -- The handler, which raises nothing, and then the commit of `get_db`.
  unfoldable pub submit_results :
      AuthContext → List ParcelResult → State → Session → Work State Session
  submit_results auth results s d =
      let start : Work State Session = record { response = no_results; queue = s; session = d } in
      let w = process_all (or_else auth.worker_id "unknown") results start in
      record w { session = commit w.session }
