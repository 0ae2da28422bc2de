-- ===== src/Results/Persist.antt =====
-- legacy/app/api/internal/parcel/results.py: what is in the table when nothing failed.
use taxlien_gateway.Prelude.{
  ℕ, ◌≤◌, ◌≡◌, inl, inr, refl, ap, ◌∙◌, false, Option, none, some, List, [], ◌∷◌, String, length,
  or_else, Option-cases, Bool-cases, if◌then◌else◌, arith,
}
use taxlien_gateway.Models.Auth.{AuthContext}
use taxlien_gateway.Models.Worker.{ParcelResult}
use taxlien_gateway.Redis.{Redis}
use taxlien_gateway.Database.{ParcelKey, Parcel, key_eq, upserted, Database}
use taxlien_gateway.WorkerQueue.{Codec, complete_task}
use taxlien_gateway.Results.{
  key_of, update_stmt, no_results, Work, process, process_all, submit_results,
}
use taxlien_gateway.Results.Counts.{process-refused, process-stored, submit_results-IsCount}

-- What a row says besides its key: the data, the time of the scrape, and the worker.
abbrev pub Content : Type 0
Content = String × ℕ × String

abbrev pub shown : Option Parcel → Option Content
shown none = none
shown (some p) = some (p.payload, p.scraped_at, p.worker_id)

-- The specification: a dictionary by key into which each result is put, replacing what is there.
abbrev pub put_result :
    String → ParcelResult → (ParcelKey → Option Content) → ParcelKey → Option Content
put_result worker_id r table k =
    if key_eq (key_of r) k then some (r.payload, r.scraped_at, worker_id) else table k

unfoldable pub put_results :
    String → List ParcelResult → (ParcelKey → Option Content) → ParcelKey → Option Content
put_results worker_id [] table = table
put_results worker_id (r ∷ rs) table = put_results worker_id rs (put_result worker_id r table)

shown-upserted :
    (worker_id : String) (r : ParcelResult) (o : Option Parcel)
    → shown (some (upserted (update_stmt r worker_id) o))
      ≡ some (r.payload, r.scraped_at, worker_id)
shown-upserted worker_id r none = refl
shown-upserted worker_id r (some old) = refl

module _ (redis : Redis) (db : Database) (codec : Codec) (task_error : String) where
  open redis use {State}
  open db use {
    Session, committed, pending, aborted, execute, commit, pending-execute, aborted-execute,
    committed-commit,
  }

  -- The table as the session sees it.
  abbrev pub view : Session → ParcelKey → Option Content
  view d k = shown (pending d k)

  process-failed :
      (worker_id : String) (r : ParcelResult) (w : Work State Session)
      → w.response.failed ≤ (process redis db codec task_error worker_id r w).response.failed
  process-failed worker_id r w =
      elim (Option-cases (execute (update_stmt r worker_id) w.session).0) [
        | inr (e, raised) ↦
            rw (process-refused redis db codec task_error worker_id e r w raised) (omega arith)
        | inl stored ↦
            rw (process-stored redis db codec task_error worker_id r w stored)
              (elim (Option-cases (complete_task redis codec worker_id r.task_id w.queue).0) [
                | inl unread ↦ rw unread (omega arith)
                | inr (b, done) ↦ rw done (omega arith)
              ])
      ]

  process_all-failed :
      (worker_id : String) (rs : List ParcelResult) (w : Work State Session)
      → w.response.failed ≤ (process_all redis db codec task_error worker_id rs w).response.failed
  unfolding process_all
  process_all-failed worker_id [] w = omega arith
  process_all-failed worker_id (r ∷ rs) w = omega (
    arith,
    process-failed worker_id r w,
    process_all-failed worker_id rs (process redis db codec task_error worker_id r w),
  )

  -- A result that does not add to the failures is in the table.
  process-view :
      (worker_id : String) (r : ParcelResult) (w : Work State Session)
      → (process redis db codec task_error worker_id r w).response.failed ≤ w.response.failed
      → (aborted (process redis db codec task_error worker_id r w).session ≡ false)
        × ((k : ParcelKey)
            → view (process redis db codec task_error worker_id r w).session k
              ≡ put_result worker_id r (view w.session) k)
  process-view worker_id r w le =
      let u = update_stmt r worker_id in
      elim (Option-cases (execute u w.session).0) [
        | inr (e, raised) ↦ absurd (
            omega
              (arith, rw (process-refused redis db codec task_error worker_id e r w raised) at le))
        | inl stored ↦ rw (process-stored redis db codec task_error worker_id r w stored) (
          aborted-execute u w.session stored,
          λ k. rw (pending-execute u k w.session stored) (elim (Bool-cases (key_eq (key_of r) k)) [
            | inl same ↦ rw same (shown-upserted worker_id r (pending w.session k))
            | inr other ↦ rw other
          ]),
        )
      ]

  process_all-view :
      (worker_id : String) (rs : List ParcelResult) (w : Work State Session)
      → (process_all redis db codec task_error worker_id rs w).response.failed ≤ w.response.failed
      → aborted w.session ≡ false
      → let d = (process_all redis db codec task_error worker_id rs w).session in
        (aborted d ≡ false)
        × ((k : ParcelKey) → view d k ≡ put_results worker_id rs (view w.session) k)
  unfolding process_all put_results
  process_all-view worker_id [] w le ok = (ok, λ k. refl)
  process_all-view worker_id (r ∷ rs) w le ok =
      let w' = process redis db codec task_error worker_id r w in
      let (ok', one) =
        process-view worker_id r w (omega (arith, le, process_all-failed worker_id rs w')) in
      let (end, rest) =
        process_all-view worker_id rs w' (omega (arith, le, process-failed worker_id r w)) ok' in
      let same : view w'.session ≡ put_result worker_id r (view w.session) = λ i k. one k i in
      (
        end,
        λ k. rest k ∙ ap (λ (t : ParcelKey → Option Content). put_results worker_id rs t k) same,
      )

  -- If the response counts no failure, then it counts every result as inserted, and after the
  -- commit the table holds what putting the results one by one into it gives: of several results
  -- for one key, the last.
  pub submit_results-stored :
      (auth : AuthContext) (results : List ParcelResult) (s : State) (d : Session)
      → let end = submit_results redis db codec task_error auth results s d in
        aborted d ≡ false
        → ((k : ParcelKey) → pending d k ≡ committed d k)
        → end.response.failed ≡ 0
        → (end.response.inserted ≡ length results)
          × ((k : ParcelKey)
              → shown (committed end.session k)
                ≡ put_results
                    (or_else auth.worker_id "unknown")
                    results
                    (λ j. shown (committed d j))
                    k)
  unfolding submit_results
  submit_results-stored auth results s d ok fresh none_failed =
      let worker = or_else auth.worker_id "unknown" in
      let start : Work State Session = record { response = no_results; queue = s; session = d } in
      let c = submit_results-IsCount redis db codec task_error auth results s d in
      let (ok', stored) = process_all-view worker results start (omega (arith, none_failed)) ok in
      let same : view d ≡ (λ k. shown (committed d k)) = λ i k. shown (fresh k i) in
      (
        omega (arith, none_failed, c.covered, c.few_inserted),
        λ k.
            ap shown (committed-commit k _ ok')
            ∙ stored k
            ∙ ap (λ (t : ParcelKey → Option Content). put_results worker results t k) same,
      )
