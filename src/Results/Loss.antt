-- ===== src/Results/Loss.antt =====
-- legacy/app/api/internal/parcel/results.py: what a statement that the database refuses does to the
-- other results of its request, which share its transaction.
use taxlien_gateway.Prelude.{
  ◌+◌, ◌≡◌, inl, inr, refl, ap, ◌∙◌, true, none, some, List, [], ◌∷◌, ◌++◌, String, length, or_else,
  Option-cases, arith,
}
use taxlien_gateway.Models.Auth.{AuthContext}
use taxlien_gateway.Models.Worker.{ParcelResult}
use taxlien_gateway.Redis.{Redis}
use taxlien_gateway.Database.{ParcelKey, Database}
use taxlien_gateway.WorkerQueue.{Codec, complete_task}
use taxlien_gateway.Results.{
  update_stmt, no_results, count_failed, Work, process, process_all, submit_results,
}
use taxlien_gateway.Results.Counts.{process-refused, process-stored, process-committed}

module _ (redis : Redis) (db : Database) (codec : Codec) (task_error : String) where
  open redis use {State}
  open db use {
    Session, committed, aborted, execute, commit, execute-aborted, committed-execute,
    committed-commit_aborted, aborted-execute,
  }

  process_all-append :
      (worker_id : String) (rs qs : List ParcelResult) (w : Work State Session)
      → process_all redis db codec task_error worker_id (rs ++ qs) w
        ≡ process_all redis db codec task_error worker_id qs
            (process_all redis db codec task_error worker_id rs w)
  unfolding process_all
  process_all-append worker_id [] qs w = refl
  process_all-append worker_id (r ∷ rs) qs w =
      process_all-append worker_id rs qs (process redis db codec task_error worker_id r w)

  -- What the loop does to the table before the commit.
  process_all-committed :
      (worker_id : String) (rs : List ParcelResult) (w : Work State Session) (k : ParcelKey)
      → committed (process_all redis db codec task_error worker_id rs w).session k
        ≡ committed w.session k
  unfolding process_all
  process_all-committed worker_id [] w k = refl
  process_all-committed worker_id (r ∷ rs) w k =
      process_all-committed worker_id rs (process redis db codec task_error worker_id r w) k
      ∙ process-committed redis db codec task_error worker_id r w k

  -- From an aborted transaction the loop stores nothing and completes nothing.
  record IsStuck (w w' : Work State Session) : Type 0 where
    inserted : w'.response.inserted ≡ w.response.inserted
    queue : w'.queue ≡ w.queue
    still : aborted w'.session ≡ true

  process-IsStuck :
      (worker_id : String) (r : ParcelResult) (w : Work State Session)
      → aborted w.session ≡ true
      → IsStuck w (process redis db codec task_error worker_id r w)
  process-IsStuck worker_id r w stuck =
      let ((e, raised), still) = execute-aborted (update_stmt r worker_id) w.session stuck in
      rw (process-refused redis db codec task_error worker_id e r w raised)
        record { inserted = refl; queue = refl; still = still }

  process_all-IsStuck :
      (worker_id : String) (rs : List ParcelResult) (w : Work State Session)
      → aborted w.session ≡ true
      → IsStuck w (process_all redis db codec task_error worker_id rs w)
  unfolding process_all
  process_all-IsStuck worker_id [] w stuck = record { inserted = refl; queue = refl; still = stuck }
  process_all-IsStuck worker_id (r ∷ rs) w stuck =
      let one = process-IsStuck worker_id r w stuck in
      let rest =
        process_all-IsStuck worker_id rs (process redis db codec task_error worker_id r w)
          one.still in
      record {
        inserted = rest.inserted ∙ one.inserted;
        queue = rest.queue ∙ one.queue;
        still = rest.still;
      }

  process_all-bad :
      (worker_id e : String) (bad : ParcelResult) (after : List ParcelResult)
      (w : Work State Session)
      → (execute (update_stmt bad worker_id) w.session).0 ≡ some e
      → aborted (execute (update_stmt bad worker_id) w.session).1 ≡ true
      → IsStuck w (process_all redis db codec task_error worker_id (bad ∷ after) w)
  unfolding process_all
  process_all-bad worker_id e bad after w raised gone =
      rw (process-refused redis db codec task_error worker_id e bad w raised) (
        let rest =
          process_all-IsStuck worker_id after
            record {
              response = count_failed e w.response;
              queue = w.queue;
              session = (execute (update_stmt bad worker_id) w.session).1;
            }
            gone in
        record { inserted = rest.inserted; queue = rest.queue; still = rest.still })

  -- The statements of some results are executed in order, and each succeeds.
  abbrev pub AllStored : String → List ParcelResult → Session → Type 0
  AllStored worker_id [] d = Unit
  AllStored worker_id (r ∷ rs) d =
      ((execute (update_stmt r worker_id) d).0 ≡ none)
      × AllStored worker_id rs (execute (update_stmt r worker_id) d).1

  -- The session after these statements.
  abbrev pub execute_each : String → List ParcelResult → Session → Session
  execute_each worker_id [] d = d
  execute_each worker_id (r ∷ rs) d =
      execute_each worker_id rs (execute (update_stmt r worker_id) d).1

  -- Redis after the completion of the tasks of some results, in order.
  abbrev pub complete_each : String → List ParcelResult → State → State
  complete_each worker_id [] s = s
  complete_each worker_id (r ∷ rs) s =
      complete_each worker_id rs (complete_task redis codec worker_id r.task_id s).1

  -- What the loop comes to where every statement succeeds.
  record IsStored (worker_id : String) (rs : List ParcelResult) (w w' : Work State Session)
      : Type 0 where
    inserted : w'.response.inserted ≡ w.response.inserted + length rs
    queue : w'.queue ≡ complete_each worker_id rs w.queue
    session : w'.session ≡ execute_each worker_id rs w.session

  process-inserted :
      (worker_id : String) (r : ParcelResult) (w : Work State Session)
      → (execute (update_stmt r worker_id) w.session).0 ≡ none
      → (process redis db codec task_error worker_id r w).response.inserted
        ≡ w.response.inserted + 1
  process-inserted worker_id r w stored =
      rw (process-stored redis db codec task_error worker_id r w stored)
        (elim (Option-cases (complete_task redis codec worker_id r.task_id w.queue).0) [
          | inl unread ↦ rw unread refl
          | inr (b, done) ↦ rw done refl
        ])

  process_all-IsStored :
      (worker_id : String) (rs : List ParcelResult) (w : Work State Session)
      → AllStored worker_id rs w.session
      → IsStored worker_id rs w (process_all redis db codec task_error worker_id rs w)
  unfolding process_all
  process_all-IsStored worker_id [] w all = record {
    inserted = omega arith;
    queue = refl;
    session = refl;
  }
  process_all-IsStored worker_id (r ∷ rs) w (stored, all) =
      let w' = process redis db codec task_error worker_id r w in
      let one = process-stored redis db codec task_error worker_id r w stored in
      let rest =
        process_all-IsStored worker_id rs w'
          (rw (ap (λ (x : Work State Session). x.session) one) all) in
      record {
        inserted = omega (arith, rest.inserted, process-inserted worker_id r w stored);
        queue =
            rest.queue ∙ ap (λ (x : Work State Session). complete_each worker_id rs x.queue) one;
        session =
            rest.session ∙ ap (λ (x : Work State Session). execute_each worker_id rs x.session) one;
      }

  -- If the statements of some results succeed, and that of the next one fails and aborts the
  -- transaction, then the request stores nothing, the results before that one included: the table
  -- stays as it was. Yet the response counts exactly those before it as inserted, and Redis is as
  -- after the completion of their tasks, one after the other, and of no task after them.
  pub failed_statement_loses_all :
      (auth : AuthContext) (before after : List ParcelResult) (bad : ParcelResult) (s : State)
      (d : Session) (e : String)
      → let worker_id = or_else auth.worker_id "unknown" in
        let r = execute (update_stmt bad worker_id) (execute_each worker_id before d) in
        let end = submit_results redis db codec task_error auth (before ++ bad ∷ after) s d in
        AllStored worker_id before d
        → r.0 ≡ some e
        → aborted r.1 ≡ true
        → ((k : ParcelKey) → committed end.session k ≡ committed d k)
          × (end.response.inserted ≡ length before)
          × (end.queue ≡ complete_each worker_id before s)
  unfolding submit_results
  failed_statement_loses_all auth before after bad s d e all raised gone =
      let worker_id = or_else auth.worker_id "unknown" in
      let start : Work State Session = record { response = no_results; queue = s; session = d } in
      let w = process_all redis db codec task_error worker_id before start in
      let stored = process_all-IsStored worker_id before start all in
      let split = process_all-append worker_id before (bad ∷ after) start in
      let from_none : 0 + length before ≡ length before = omega arith in
      let stuck =
        process_all-bad worker_id e bad after w (rw stored.session raised)
          (rw stored.session gone) in
      (
        λ k.
            committed-commit_aborted k _
              (ap (λ (x : Work State Session). aborted x.session) split ∙ stuck.still)
            ∙ process_all-committed worker_id (before ++ bad ∷ after) start k,
        ap (λ (x : Work State Session). x.response.inserted) split
            ∙ stuck.inserted
            ∙ stored.inserted
            ∙ from_none,
        ap (λ (x : Work State Session). x.queue) split ∙ stuck.queue ∙ stored.queue,
      )
