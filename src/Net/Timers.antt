-- ===== src/Net/Timers.antt =====
-- src/net/EventLoop.h and src/net/EventLoop.cpp: the timers of a loop. What a user's callback does to the
-- timers is an argument, and so are the times that the clock shows. A time is in microseconds.
pub mod Order
pub mod Validity
pub mod Cancelling
pub mod Due
mod Tests
use iot_distributed_gateway.Common.{
  ℕ, suc, ◌+◌, ◌==◌, ◌||◌, List, [], ◌∷◌, ◌++◌, Bool, true, false, Option, none, some, leb,
  if◌then◌else◌,
}

-- `interval` is none for a timer that runs once.
pub record Timer (F : Type 0) : Type 0 where
  pub id : ℕ
  pub callback : F
  pub interval : Option ℕ

-- `timers` is timers_, in the order of its keys; `tokens` has the ids in timerCancelTokens_, and `cancelled`
-- those whose token is set, which their closures share; `armed` is what the timerfd was set for last.
pub record TimerQueue (F : Type 0) : Type 0 where
  pub timers : List (ℕ × Timer F)
  pub next_timer_id : ℕ
  pub tokens : List ℕ
  pub cancelled : List ℕ
  pub armed : Option ℕ

abbrev pub has : ℕ → List ℕ → Bool
has id [] = false
has id (j ∷ rest) = j == id || has id rest

abbrev pub without : ℕ → List ℕ → List ℕ
without id [] = []
without id (j ∷ rest) = if j == id then without id rest else j ∷ without id rest

module _ {F : Type 0} where
  -- std::multimap::emplace: behind the entries with the same key.
  unfoldable pub emplace : ℕ → Timer F → List (ℕ × Timer F) → List (ℕ × Timer F)
  emplace t x [] = (t, x) ∷ []
  emplace t x ((u, y) ∷ rest) =
      if leb u t then (u, y) ∷ emplace t x rest else (t, x) ∷ (u, y) ∷ rest

  -- resetTimerFd where the first entry has the key.
  abbrev pub arm_first : ℕ → List (ℕ × Timer F) → Option ℕ → Option ℕ
  arm_first t [] armed = armed
  arm_first t ((u, y) ∷ rest) armed = if u == t then some t else armed

  unfoldable pub schedule : ℕ → Timer F → TimerQueue F → TimerQueue F
  unfolding emplace
  schedule t x q =
      let timers = emplace t x q.timers in
      record q { timers = timers; armed = arm_first t timers q.armed }

  abbrev pub new_id : TimerQueue F → TimerQueue F
  new_id q = record q {
    next_timer_id = suc q.next_timer_id;
    tokens = q.next_timer_id ∷ without q.next_timer_id q.tokens;
  }

  unfoldable pub run_at : ℕ → F → TimerQueue F → ℕ × TimerQueue F
  unfolding schedule
  run_at when cb q = (
    q.next_timer_id,
    schedule when (record { id = q.next_timer_id; callback = cb; interval = none }) (new_id q),
  )

  unfoldable pub run_after : ℕ → ℕ → F → TimerQueue F → ℕ × TimerQueue F
  unfolding run_at
  run_after now delay cb q = run_at (now + delay) cb q

  unfoldable pub run_every : ℕ → ℕ → F → TimerQueue F → ℕ × TimerQueue F
  unfolding schedule
  run_every now interval cb q = (
    q.next_timer_id,
    schedule (now + interval)
        (record { id = q.next_timer_id; callback = cb; interval = some interval }) (new_id q),
  )

  unfoldable pub cancel_timer : ℕ → TimerQueue F → TimerQueue F
  cancel_timer id q =
      if has id q.tokens
      then record q { cancelled = id ∷ q.cancelled; tokens = without id q.tokens }
      else q

  -- The loop that collects the timers that are due, and those that are left.
  abbrev pub also_due :
      ℕ × Timer F → List (Timer F) × List (ℕ × Timer F) → List (Timer F) × List (ℕ × Timer F)
  also_due (t, x) (due, left) = (x ∷ due, left)

  unfoldable pub collect : ℕ → List (ℕ × Timer F) → List (Timer F) × List (ℕ × Timer F)
  collect now [] = ([], [])
  collect now ((t, x) ∷ rest) =
      if leb t now then also_due (t, x) (collect now rest) else ([], (t, x) ∷ rest)

  abbrev pub rearm : List (ℕ × Timer F) → Option ℕ → Option ℕ
  rearm [] armed = armed
  rearm ((t, x) ∷ rest) armed = some t

  module _ (call : F → TimerQueue F → TimerQueue F) (clock : ℕ → ℕ) where
    -- A closure's call of its callback, unless its token is set, and the callback that was called.
    abbrev pub called : Timer F → TimerQueue F → TimerQueue F × List ℕ
    called x q = if has x.id q.cancelled then (q, []) else (call x.callback q, x.id ∷ [])

    -- What a closure does behind that. `clock` has the time that a closure reads there, by its timer.
    abbrev pub finish : Timer F → Option ℕ → TimerQueue F → TimerQueue F
    finish x none q = record q { tokens = without x.id q.tokens }
    finish x (some interval) q =
        if has x.id q.cancelled then q else schedule (clock x.id + interval) x q

    unfoldable pub fire : Timer F → TimerQueue F → TimerQueue F × List ℕ
    unfolding schedule
    fire x q = let (q', ids) = called x q in (finish x x.interval q', ids)

    unfoldable pub fire_all : List (Timer F) → TimerQueue F → TimerQueue F × List ℕ
    fire_all [] q = (q, [])
    fire_all (x ∷ xs) q =
        let (q', ids) = fire x q in let (q'', more) = fire_all xs q' in (q'', ids ++ more)

    unfoldable pub process_timers : ℕ → TimerQueue F → TimerQueue F × List ℕ
    unfolding collect fire_all
    process_timers now q =
        let (due, left) = collect now q.timers in
        let (q', ids) = fire_all due (record q { timers = left }) in
        (record q' { armed = rearm q'.timers q'.armed }, ids)
