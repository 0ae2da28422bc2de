-- ===== src/Results/Tests.antt =====
-- The theorems on submitted results at concrete results.
use taxlien_gateway.Prelude.{
  ◌≡◌, refl, Bool, none, some, [], ◌∷◌, ◌++◌, String, str_eq, if◌then◌else◌,
}
use taxlien_gateway.Models.Auth.{AuthContext, member, internal, no_auth}
use taxlien_gateway.Models.Worker.{ParcelResult}
use taxlien_gateway.Redis.Memory.{Store, memory, empty_store}
use taxlien_gateway.Database.{ParcelKey, Parcel, Database}
use taxlien_gateway.Database.Memory.{empty_table, table}
use taxlien_gateway.WorkerQueue.{complete_task, find_task}
use taxlien_gateway.WorkerQueue.Plain.{plain}
use taxlien_gateway.Results.{process, process_all, upsert_parcel, submit_results}
use taxlien_gateway.Results.Persist.{shown, put_results, submit_results-stored}
use taxlien_gateway.Results.Loss.{failed_statement_loses_all}

abbrev result : String → String → ParcelResult
result task_id state = record {
  task_id = task_id;
  parcel_id = "12-34";
  platform = "qpublic";
  state = state;
  county = "Baker";
  payload = "{}";
  scraped_at = 7;
  parse_duration_ms = 12;
  raw_html_hash = none;
}

abbrev worker : AuthContext
worker = record no_auth { tier = member internal; worker_id = some "w1" }

abbrev store : Store
store = record empty_store { lists = λ k. if str_eq k "processing:w1" then "z" ∷ "y" ∷ [] else [] }

-- The column of the state holds eight characters.
abbrev too_long : Parcel → Bool
too_long p = str_eq p.key.state "Florida, USA"

abbrev database : Database
database = table too_long

failed_statement_loses_all_example :
    let end =
      submit_results memory database plain "not found" worker
        ((result "z" "FL" ∷ []) ++ result "y" "Florida, USA" ∷ [])
        store
        empty_table in
    ((k : ParcelKey) → Database.committed database end.session k ≡ none)
    × (end.response.inserted ≡ 1)
    × (end.queue ≡ (complete_task memory plain "w1" "z" store).1)
failed_statement_loses_all_example =
    failed_statement_loses_all memory database plain "not found" worker (result "z" "FL" ∷ []) []
      (result "y" "Florida, USA") store empty_table "statement failed" (refl, tt) refl refl

nothing_failed :
    (submit_results memory database plain "not found" worker
      (result "z" "FL" ∷ result "y" "GA" ∷ [])
      store
      empty_table).response.failed
    ≡ 0
unfolding submit_results process_all process upsert_parcel complete_task find_task
nothing_failed = refl

submit_results-stored_example :
    let end =
      submit_results memory database plain "not found" worker
        (result "z" "FL" ∷ result "y" "GA" ∷ [])
        store
        empty_table in
    (end.response.inserted ≡ 2)
    × ((k : ParcelKey)
        → shown (Database.committed database end.session k)
          ≡ put_results "w1" (result "z" "FL" ∷ result "y" "GA" ∷ []) (λ j. none) k)
submit_results-stored_example =
    submit_results-stored memory database plain "not found" worker
      (result "z" "FL" ∷ result "y" "GA" ∷ []) store empty_table refl (λ k. refl) nothing_failed
