-- ===== src/Results/Counts.antt =====
-- legacy/app/api/internal/parcel/results.py: the numbers of the response.
use taxlien_gateway.Prelude.{
  ℕ, suc, ◌+◌, ◌≤◌, ◌≡◌, inl, inr, refl, true, none, some, List, [], ◌∷◌, String, length,
  length-append, or_else, Option-cases, arith,
}
use taxlien_gateway.Models.Auth.{AuthContext}
use taxlien_gateway.Models.Worker.{ParcelResult, SubmitResponse}
use taxlien_gateway.Redis.{Redis}
use taxlien_gateway.Database.{ParcelKey, Database}
use taxlien_gateway.WorkerQueue.{Codec, complete_task}
use taxlien_gateway.Results.{
  update_stmt, no_results, count_new, count_failed, Work, upsert_parcel, process, process_all,
  submit_results,
}

-- The numbers of a response after n results.
pub record IsCount (n : ℕ) (r : SubmitResponse) : Type 0 where
  pub no_update : r.updated ≡ 0
  pub listed : length r.errors ≡ r.failed
  pub covered : n ≤ r.inserted + r.failed
  pub few_inserted : r.inserted ≤ n
  pub few_failed : r.failed ≤ n

module _ (redis : Redis) (db : Database) (codec : Codec) (task_error : String) where
  open redis use {State}
  open db use {Session, execute, committed, committed-execute}

  pub process-refused :
      (worker_id e : String) (result : ParcelResult) (w : Work State Session)
      → (execute (update_stmt result worker_id) w.session).0 ≡ some e
      → process redis db codec task_error worker_id result w ≡ record {
        response = count_failed e w.response;
        queue = w.queue;
        session = (execute (update_stmt result worker_id) w.session).1;
      }
  unfolding process upsert_parcel
  process-refused worker_id e result w raised = rw raised

  pub process-stored :
      (worker_id : String) (result : ParcelResult) (w : Work State Session)
      → (execute (update_stmt result worker_id) w.session).0 ≡ none
      → process redis db codec task_error worker_id result w ≡ record {
        response = elim (complete_task redis codec worker_id result.task_id w.queue).0 [
          | none ↦ count_failed task_error (count_new true w.response)
          | some b ↦ count_new true w.response
        ];
        queue = (complete_task redis codec worker_id result.task_id w.queue).1;
        session = (execute (update_stmt result worker_id) w.session).1;
      }
  unfolding process upsert_parcel
  process-stored worker_id result w stored = rw stored

  pub process-committed :
      (worker_id : String) (result : ParcelResult) (w : Work State Session) (k : ParcelKey)
      → committed (process redis db codec task_error worker_id result w).session k
        ≡ committed w.session k
  process-committed worker_id result w k =
      elim (Option-cases (execute (update_stmt result worker_id) w.session).0) [
        | inr (e, raised) ↦
            rw (process-refused worker_id e result w raised)
              (committed-execute (update_stmt result worker_id) k w.session)
        | inl stored ↦
            rw (process-stored worker_id result w stored)
              (committed-execute (update_stmt result worker_id) k w.session)
      ]

  process-IsCount :
      (worker_id : String) (n : ℕ) (result : ParcelResult) (w : Work State Session)
      → IsCount n w.response
      → IsCount (suc n) (process redis db codec task_error worker_id result w).response
  process-IsCount worker_id n result w c =
      let more = length-append w.response.errors in
      elim (Option-cases (execute (update_stmt result worker_id) w.session).0) [
        | inr (e, raised) ↦ rw (process-refused worker_id e result w raised) record {
          no_update = c.no_update;
          listed = omega (arith, c.listed, more (e ∷ []));
          covered = omega (arith, c.covered);
          few_inserted = omega (arith, c.few_inserted);
          few_failed = omega (arith, c.few_failed);
        }
        | inl stored ↦
            rw (process-stored worker_id result w stored)
              (elim (Option-cases (complete_task redis codec worker_id result.task_id w.queue).0) [
                | inl unread ↦ rw unread record {
                  no_update = c.no_update;
                  listed = omega (arith, c.listed, more (task_error ∷ []));
                  covered = omega (arith, c.covered);
                  few_inserted = omega (arith, c.few_inserted);
                  few_failed = omega (arith, c.few_failed);
                }
                | inr (b, done) ↦ rw done record {
                  no_update = c.no_update;
                  listed = c.listed;
                  covered = omega (arith, c.covered);
                  few_inserted = omega (arith, c.few_inserted);
                  few_failed = omega (arith, c.few_failed);
                }
              ])
      ]

  process_all-IsCount :
      (worker_id : String) (n : ℕ) (results : List ParcelResult) (w : Work State Session)
      → IsCount n w.response
      → IsCount
          (n + length results)
          (process_all redis db codec task_error worker_id results w).response
  unfolding process_all
  process_all-IsCount worker_id n [] w c = let same : n + 0 ≡ n = omega arith in rw same c
  process_all-IsCount worker_id n (r ∷ rs) w c =
      let same : n + suc (length rs) ≡ suc n + length rs = omega arith in
      rw same (
        process_all-IsCount worker_id (suc n) rs (process redis db codec task_error worker_id r w)
          (process-IsCount worker_id n r w c))

  pub submit_results-IsCount :
      (auth : AuthContext) (results : List ParcelResult) (s : State) (d : Session)
      → IsCount
          (length results)
          (submit_results redis db codec task_error auth results s d).response
  unfolding submit_results
  submit_results-IsCount auth results s d =
      let from_none : 0 + length results ≡ length results = omega arith in
      rw (← from_none) (
        process_all-IsCount (or_else auth.worker_id "unknown") 0 results
          record { response = no_results; queue = s; session = d }
          record {
            no_update = refl;
            listed = refl;
            covered = omega arith;
            few_inserted = omega arith;
            few_failed = omega arith;
          })
