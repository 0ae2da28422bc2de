-- ===== src/WorkerQueue/HandOut.antt =====
-- legacy/app/services/worker_queue.py: how often a task is handed out, while any handlers run.
use taxlien_gateway.Prelude.{
  ℕ, ◌+◌, ◌≡◌, ◌≢◌, inl, inr, refl, sym, ◌∙◌, Option, List, [], ◌∷◌, ◌++◌, String, All, Among,
  Distinct, count, count-append, of_list, of_list-eq, arith,
}
use taxlien_gateway.Redis.{Redis}
use taxlien_gateway.WorkerQueue.{Codec, queue_key, processing_key}
use taxlien_gateway.WorkerQueue.Loop.{queue_key-ne-processing_key}
use taxlien_gateway.WorkerQueue.Contents.{
  all_texts, total, given, count-all_texts, total-lpush, total-rpoplpush_out, total-lrem_out,
}
use taxlien_gateway.WorkerQueue.Runs.{InUse}
use taxlien_gateway.WorkerQueue.Operations.{Operation, pushing, popping, completing}
use taxlien_gateway.WorkerQueue.Shapes.{pop_program-all, complete_program-all}
use taxlien_gateway.WorkerQueue.Handlers.{Shared, Config, command, idle, Turns, Turns-Inv}
use taxlien_gateway.WorkerQueue.Programs.{
  Program, done, raised, lpush, rpoplpush, lrange, lrem, push_program, program,
}

-- Keys of queues only.
abbrev pub AllQueues : List String → Type 0
AllQueues = All (λ k. (platform : String) × (priority : ℕ) × (k ≡ queue_key platform priority))

AllQueues-ne :
    (worker_id j : String) (ks : List String)
    → AllQueues ks
    → Among j ks
    → processing_key worker_id ≢ j
AllQueues-ne worker_id j [] q i = absurd i
AllQueues-ne worker_id j (k ∷ ks) ((platform, p, is), q) (inl e) =
    λ same. queue_key-ne-processing_key platform worker_id p (sym is ∙ e ∙ sym same)
AllQueues-ne worker_id j (k ∷ ks) (is, q) (inr i) = AllQueues-ne worker_id j ks q i

module _ (redis : Redis) (codec : Codec) (queues : List String) where
  open redis use {State}

  -- The queues that an operation pushes to or pops from are among these.
  abbrev pub UsesQueues : Operation → Type 0
  UsesQueues (pushing t) = Among (queue_key t.platform t.priority) queues
  UsesQueues (popping worker_id platforms capacity) = All (InUse redis codec queues) platforms
  UsesQueues (completing worker_id task_id) = Unit

  abbrev Outside : String → Type 0
  Outside l = (j : String) → Among j queues → l ≢ j

  -- A program that adds to the queues by pushes and takes from them by handing out only.
  abbrev HandsOut : Program → Type 0
  HandsOut (done a) = Unit
  HandsOut raised = Unit
  HandsOut (lpush k v p) = Among k queues × HandsOut p
  HandsOut (rpoplpush k l f) =
      Among k queues × (k ≢ l) × Outside l × ((raw : Option String) → HandsOut (f raw))
  HandsOut (lrange k f) = (raws : List String) → HandsOut (f raws)
  HandsOut (lrem k v p) = Outside k × HandsOut p

  module _ (q : AllQueues queues) where
    outside : (worker_id : String) → Outside (processing_key worker_id)
    outside worker_id j m = AllQueues-ne worker_id j queues q m

    program-HandsOut : (o : Operation) → UsesQueues o → HandsOut (program redis codec o)
    unfolding push_program
    program-HandsOut (pushing t) i = (i, tt)
    program-HandsOut (popping worker_id platforms capacity) is =
        pop_program-all redis codec HandsOut (λ a. tt) tt worker_id capacity
          (λ platform p. Among (queue_key platform p) queues)
          (λ platform p f i h.
            (i, queue_key-ne-processing_key platform worker_id p, outside worker_id, h))
          platforms is
    program-HandsOut (completing worker_id task_id) i =
        complete_program-all redis codec HandsOut (λ a. tt) tt worker_id task_id (λ f h. h)
          (λ raw. (outside worker_id, tt))

  module _ (start : State) (d : Distinct queues) where
    -- What was handed out or waits is what waited at the start or was pushed.
    abbrev IsBalanced : Shared State → Type 0
    IsBalanced u =
        (v : String)
        → count v u.handed + total redis v queues u.system.store
          ≡ count v u.system.pushed + total redis v queues start

    command-IsBalanced :
        (p : Program) (u : Shared State)
        → HandsOut p
        → IsBalanced u
        → IsBalanced (command redis p u).1 × HandsOut (command redis p u).0
    command-IsBalanced (done a) u w h = (h, tt)
    command-IsBalanced raised u w h = (h, tt)
    command-IsBalanced (lpush k x p) u (i, w) h =
        (λ v. omega (arith, h v, total-lpush redis v x k queues u.system.store d i), w)
    command-IsBalanced (rpoplpush k l f) u (i, n, out, w) h =
        let s = u.system.store in
        let raw = (redis.rpoplpush k l s).0 in
        (
          λ v. omega (
            arith,
            h v,
            total-rpoplpush_out redis v k l queues s d i out n,
            count-append v (given raw) u.handed,
          ),
          w raw,
        )
    command-IsBalanced (lrange k f) u w h = (h, w (redis.lrange u.system.store k))
    command-IsBalanced (lrem k x p) u (out, w) h =
        (λ v. omega (arith, h v, total-lrem_out redis v x k queues u.system.store out), w)

    -- From a moment at which no handler runs, whatever handlers then push to and pop from these
    -- queues, whose keys are distinct, and complete anywhere, however their commands interleave and
    -- wherever handlers are cancelled or die: as bags, the texts that were handed to handlers and
    -- those that wait are together those that waited at the start and those that were pushed since.
    -- So no text is handed out more often than it was queued.
    pub tasks_are_handed_out_once :
        (e : Config State)
        → AllQueues queues
        → Turns redis codec UsesQueues (idle redis start) e
        → of_list (e.shared.handed ++ all_texts redis queues e.shared.system.store)
          ≡ of_list (e.shared.system.pushed ++ all_texts redis queues start)
    tasks_are_handed_out_once e q ts =
        let balanced =
          Turns-Inv redis codec UsesQueues IsBalanced HandsOut (program-HandsOut q)
            command-IsBalanced start e (λ v. refl) ts in
        of_list-eq λ v. omega (
          arith,
          balanced v,
          count-append v e.shared.handed (all_texts redis queues e.shared.system.store),
          count-append v e.shared.system.pushed (all_texts redis queues start),
          count-all_texts redis v queues e.shared.system.store,
          count-all_texts redis v queues start,
        )
