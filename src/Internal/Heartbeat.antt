-- ===== src/Internal/Heartbeat.antt =====
-- legacy/app/api/internal/monitoring.py: what a heartbeat leaves in Redis, and for how long.
use taxlien_gateway.Prelude.{
  ℕ, ◌≡◌, ◌≢◌, ◌<◌, ◌≤◌, ◌∙◌, true, false, none, some, List, [], ◌∷◌, String, str_eq, eq_refl,
  eq-false_of_ne, <>_cancel_left, <>_cancel_right, leb, le→leb, lt→leb,
}
use taxlien_gateway.Models.Auth.{AuthContext}
use taxlien_gateway.Models.Worker.{WorkerStatus}
use taxlien_gateway.Redis.{Value, number, text, Redis}
use taxlien_gateway.Internal.{
  worker_of, status_key, later_fields, hset_all, join_commas, worker_heartbeat,
}

module _ (redis : Redis) where
  open redis use {
    State, hget, ttl, exists, hset, expire, elapse, hget-hset, hget-expire, exists-hset, ttl-expire,
    hget-elapse,
  }

  -- The hash of a worker shows this status.
  pub record Shows (now : ℕ) (status : WorkerStatus) (key : String) (s : State) : Type 0 where
    pub last_seen : hget s key "last_seen" ≡ some (number now)
    pub active_tasks : hget s key "active_tasks" ≡ some (number status.active_tasks)
    pub platforms : hget s key "platforms" ≡ some (text (join_commas status.platforms))
    pub cpu : hget s key "cpu" ≡ some (text status.cpu_percent)
    pub memory : hget s key "memory" ≡ some (text status.memory_percent)

  exists-hset_all :
      (k f : String) (v : Value) (fs : List (String × Value)) (s : State)
      → exists (hset_all redis k ((f, v) ∷ fs) s) k ≡ true
  exists-hset_all k f v [] s = exists-hset k f v s
  exists-hset_all k f v ((g, u) ∷ fs) s = exists-hset_all k g u fs (hset k f v s)

  module _ (now : ℕ) (auth : AuthContext) (status : WorkerStatus) (s : State) where
    abbrev key : String
    key = status_key (worker_of auth)

    abbrev after : State
    after = worker_heartbeat redis now auth status s

    after-Shows : Shows now status key after
    unfolding worker_heartbeat
    after-Shows = record {
      last_seen = simp (hget-expire, hget-hset, eq_refl key);
      active_tasks = simp (hget-expire, hget-hset, eq_refl key);
      platforms = simp (hget-expire, hget-hset, eq_refl key);
      cpu = simp (hget-expire, hget-hset, eq_refl key);
      memory = simp (hget-expire, hget-hset, eq_refl key);
    }

    ttl-after : ttl after key ≡ some 300
    unfolding worker_heartbeat
    ttl-after =
        ttl-expire key key 300 _
          (exists-hset_all key "last_seen" (number now) (later_fields status) s)
        ∙ rw (eq_refl key)

    -- A heartbeat is shown for less than 300 seconds without another one, with the worker's status;
    -- from 300 seconds on nothing of it is left.
    pub shown_for_five_minutes :
        ((n : ℕ) → n < 300 → Shows now status key (elapse n after))
        × ((n : ℕ) → 300 ≤ n → (f : String) → hget (elapse n after) key f ≡ none)
    shown_for_five_minutes = (
      λ n lt.
          let fresh : leb 300 n ≡ false = lt→leb 300 n lt in
          let h = after-Shows in
          record {
            last_seen = rw (hget-elapse, ttl-after, fresh) h.last_seen;
            active_tasks = rw (hget-elapse, ttl-after, fresh) h.active_tasks;
            platforms = rw (hget-elapse, ttl-after, fresh) h.platforms;
            cpu = rw (hget-elapse, ttl-after, fresh) h.cpu;
            memory = rw (hget-elapse, ttl-after, fresh) h.memory;
          },
      λ n le f. rw (hget-elapse, ttl-after, le→leb 300 n le),
    )

    -- A heartbeat leaves the status of every other worker as it is.
    pub worker_heartbeat-other :
        (other f : String)
        → worker_of auth ≢ other
        → hget after (status_key other) f ≡ hget s (status_key other) f
    unfolding worker_heartbeat
    worker_heartbeat-other other f n =
        let apart : str_eq key (status_key other) ≡ false =
          eq-false_of_ne
            (λ e. n (<>_cancel_right _ _ ":status" (<>_cancel_left "worker:" _ _ e))) in
        simp (hget-expire, hget-hset, apart)
