-- ===== src/WorkerQueue/Others.antt =====
-- legacy/app/services/worker_queue.py: `complete_task` awaits between LRANGE and LREM. This is about
-- what others do meanwhile.
use taxlien_gateway.Prelude.{
  ℕ, ◌≡◌, ◌≢◌, inl, inr, refl, ◌∙◌, true, some, String, eq-false_of_ne, <>_cancel_left,
}
use taxlien_gateway.Models.Worker.{WorkTask}
use taxlien_gateway.Redis.{Redis}
use taxlien_gateway.WorkerQueue.{
  Codec, queue_key, processing_key, push_task, find_task, complete_task,
}
use taxlien_gateway.WorkerQueue.Loop.{snoc-cases, queue_key-ne-processing_key}

pub processing_key-ne : (v w : String) → v ≢ w → processing_key v ≢ processing_key w
processing_key-ne v w n e = n (<>_cancel_left "processing:" _ _ e)

module _ (redis : Redis) (codec : Codec) (worker_id : String) where
  open redis use {
    State, lrange, rpoplpush, lrem, lrange-lpush, rpoplpush-empty, lrange-rpoplpush, lrange-lrem,
  }

  abbrev key : String
  key = processing_key worker_id

  -- A command that is not the worker's own.
  pub data Other (s u : State) : Type 0 where
    pushed : (t : WorkTask) → u ≡ push_task redis codec t s → Other s u
    handed_to :
        (platform : String) (priority : ℕ) (other : String)
        → other ≢ worker_id
        → u ≡ (rpoplpush (queue_key platform priority) (processing_key other) s).1
        → Other s u
    removed :
        (other raw : String) → other ≢ worker_id → u ≡ lrem (processing_key other) raw s → Other s u

  pub data Others (s : State) : State → Type 0 where
    stay : Others s s
    more : {t u : State} → Others s t → Other t u → Others s u

  Other-list : (s u : State) → Other s u → lrange u key ≡ lrange s key
  unfolding push_task
  Other-list s u (pushed t e) = rw e (
      lrange-lpush (queue_key t.platform t.priority) key (codec.dumps t) s
      ∙ rw (eq-false_of_ne (queue_key-ne-processing_key t.platform worker_id t.priority)))
  Other-list s u (handed_to platform priority other n e) =
      let k = queue_key platform priority in
      let l = processing_key other in
      let k-ne-l = queue_key-ne-processing_key platform other priority in
      let not_k = eq-false_of_ne (queue_key-ne-processing_key platform worker_id priority) in
      let not_l = eq-false_of_ne (processing_key-ne other worker_id n) in
      elim (snoc-cases (lrange s k)) [
        | inl empty ↦ rw (e, rpoplpush-empty k l s empty)
        | inr (vs, v, full) ↦ rw e (lrange-rpoplpush k l key v vs s k-ne-l full ∙ rw (not_k, not_l))
      ]
  Other-list s u (removed other raw n e) = rw e (
      lrange-lrem (processing_key other) key raw s
      ∙ rw (eq-false_of_ne (processing_key-ne other worker_id n)))

  -- No command of others changes a worker's processing list.
  pub Others-list : (s u : State) → Others s u → lrange u key ≡ lrange s key
  Others-list s u stay = refl
  Others-list s u (more {t} r o) = Other-list t u o ∙ Others-list s t r

  -- What a completion does when others interrupt it after it has read the list: the worker's LREM
  -- then does to the store what the whole operation would do, at once, with the same answer.
  pub completion_is_atomic :
      (task_id raw : String) (s u : State)
      → find_task redis codec task_id (lrange s key) ≡ some (some raw)
      → Others s u
      → complete_task redis codec worker_id task_id u ≡ (some true, lrem key raw u)
  completion_is_atomic task_id raw s u found r =
      let still = Others-list s u r in unfold complete_task in rw (complete_task, still, found)
