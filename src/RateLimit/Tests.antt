-- ===== src/RateLimit/Tests.antt =====
-- The rate limiter's theorems at concrete requests.
use taxlien_gateway.Prelude.{
  ◌*◌, ◌≡◌, ◌≢◌, refl, second, true, some, none, List, [], ◌∷◌, String, eq_iff, str_eq, arith,
  if◌then◌else◌,
}
use taxlien_gateway.Redis.{number}
use taxlien_gateway.Redis.Memory.{Store, memory, empty_store}
use taxlien_gateway.RateLimit.{token, limit_of, rate_key, is_rate_limited}
use taxlien_gateway.RateLimit.Bounds.{Visit, room, untouched}
use taxlien_gateway.RateLimit.Ticking.{answers, ticking_answers, fresh, answers-eq-ticking_answers}
use taxlien_gateway.RateLimit.Answers.{waiting_is_enough}

abbrev two_visits : List (Visit Store)
two_visits = record { now = 100; between = λ s. s } ∷ record { now = 300; between = λ s. s } ∷ []

-- A bucket that was emptied at time 0.
abbrev emptied : Store
emptied = record empty_store {
  hashes = λ k f. if str_eq k (rate_key "free" "user:1") then some (number 0) else none;
}

free_rate : (limit_of "free").rate ≡ 5
unfolding limit_of
free_rate = refl

waiting_is_enough_example : (is_rate_limited memory (2 * second) "user:1" "free" emptied).0.0 ≡ true
waiting_is_enough_example =
    waiting_is_enough memory "free" "user:1" (2 * second) 0 emptied refl (omega (arith, free_rate))

starter_is_not_free : ◌≢◌ {A = String} "free" "starter"
starter_is_not_free = ground (arith, eq_iff "free" "starter")

-- Two requests that find no state of their bucket.
answers-eq-ticking_answers_example :
    answers memory "free" "user:1" two_visits empty_store
    ≡ ticking_answers
        (limit_of "free").rate
        ((limit_of "free").burst * token)
        0
        (room memory "free" "user:1" 0 empty_store)
        (100 ∷ 300 ∷ [])
answers-eq-ticking_answers_example =
    answers-eq-ticking_answers memory "free" "user:1" 0 two_visits empty_store
      (omega arith, untouched (λ f. refl), (omega arith, untouched (λ f. refl), tt))
      (fresh refl refl)
