-- ===== src/Net/Timers/Tests.antt =====
-- Two timers of a loop whose callbacks do nothing to the timers.
use iot_distributed_gateway.Common.{
  ℕ, ◌≤◌, ◌<◌, ◌≡◌, refl, List, [], ◌∷◌, ◌++◌, none, some, All, arith,
}
use iot_distributed_gateway.Net.Timers.{Timer, TimerQueue, cancel_timer, process_timers}
use iot_distributed_gateway.Net.Timers.Order.{timers_of}
use iot_distributed_gateway.Net.Timers.Validity.{
  Call, runs_at, cancels, expires, perform_all, perform_all-IsValid, IsValid,
}
use iot_distributed_gateway.Net.Timers.Cancelling.{IsSilent, cancel_timer-IsSilent}
use iot_distributed_gateway.Net.Timers.Due.{awake, process_timers-awake}
use Prim.{tt}

abbrev idle : ℕ → TimerQueue ℕ → TimerQueue ℕ
idle f q = q

-- The clock shows 60 when the repeating timer has run.
abbrev clock : ℕ → ℕ
clock id = 60

abbrev once : Timer ℕ
once = record { id = 1; callback = 7; interval = none }

abbrev often : Timer ℕ
often = record { id = 2; callback = 8; interval = some 30 }

abbrev queue : TimerQueue ℕ
queue = record {
  timers = (40, often) ∷ (90, once) ∷ [];
  next_timer_id = 3;
  tokens = 2 ∷ 1 ∷ [];
  cancelled = [];
  armed = some 40;
}

queue-IsValid : IsValid queue
queue-IsValid = record { sorted = ((omega arith, tt), (tt, tt)); set = refl }

abbrev calls : List (Call ℕ)
calls = runs_at 45 9 ∷ expires 50 clock ∷ cancels 2 ∷ expires 95 clock ∷ []

perform_all-IsValid_example : IsValid (perform_all idle calls queue).0
perform_all-IsValid_example = perform_all-IsValid idle (λ f q s. s) calls queue queue-IsValid

cancel_timer-IsSilent_example : IsSilent idle 2 (perform_all idle calls (cancel_timer 2 queue))
cancel_timer-IsSilent_example = cancel_timer-IsSilent idle (λ f q id h. h) 2 calls queue refl

process_timers-awake_example :
    (front : List (ℕ × Timer ℕ)) × (left : List (ℕ × Timer ℕ)) × (queue.timers ≡ front ++ left)
    × All (λ e. e.0 ≤ 50) front
    × All (λ e. 50 < e.0) left
    × ((process_timers idle clock 50 queue).1 ≡ awake queue.cancelled (timers_of front))
process_timers-awake_example =
    process_timers-awake idle clock 50 queue (λ f r. refl) queue-IsValid.sorted
