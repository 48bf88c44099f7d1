-- ===== src/Net/Timers/Validity.antt =====
-- EventLoop's timers in src/net/EventLoop.cpp: they stay in order, and the timerfd stands at the first.
use iot_distributed_gateway.Common.{
  ℕ, ◌+◌, ◌==◌, ==_iff, ◌≡◌, refl, sym, ap, List, [], ◌∷◌, ◌++◌, true, Option, none, some, leb,
  Bool-cases, inl, inr, arith,
}
use iot_distributed_gateway.Net.Timers.{
  Timer, TimerQueue, emplace, arm_first, schedule, new_id, run_at, run_every, cancel_timer, has,
  collect, rearm, called, finish, fire, fire_all, process_timers,
}
use iot_distributed_gateway.Net.Timers.Order.{IsSorted, emplace-IsSorted, collect-Split}
use Prim.{Unit, tt}

module _ {F : Type 0} where
  -- The timerfd was set for the first entry last, where there is one.
  abbrev pub IsArmed : List (ℕ × Timer F) → Option ℕ → Type 0
  IsArmed [] armed = Unit {0}
  IsArmed ((t, x) ∷ rest) armed = armed ≡ some t

  pub record IsValid (q : TimerQueue F) : Type 0 where
    pub sorted : IsSorted q.timers
    pub set : IsArmed q.timers q.armed

  emplace-IsArmed :
      (t : ℕ) (x : Timer F) (ts : List (ℕ × Timer F)) (armed : Option ℕ)
      → IsArmed ts armed
      → IsArmed (emplace t x ts) (arm_first t (emplace t x ts) armed)
  unfolding emplace
  emplace-IsArmed t x [] armed h = let self : (t == t) ≡ true = ground arith in rw self refl
  emplace-IsArmed t x ((u, y) ∷ rest) armed h = elim (Bool-cases (leb u t)) [
    | inl before ↦ rw before (elim (Bool-cases (u == t)) [
      | inl same ↦ rw same (ap some (sym ((==_iff u t).0 same)))
      | inr other ↦ rw other h
    ])
    | inr behind ↦ let self : (t == t) ≡ true = ground arith in rw (behind, self) refl
  ]

  schedule-IsValid : (t : ℕ) (x : Timer F) (q : TimerQueue F) → IsValid q → IsValid (schedule t x q)
  unfolding schedule
  schedule-IsValid t x q v = record {
    sorted = emplace-IsSorted t x q.timers v.sorted;
    set = emplace-IsArmed t x q.timers q.armed v.set;
  }

  rearm-IsArmed : (ts : List (ℕ × Timer F)) (armed : Option ℕ) → IsArmed ts (rearm ts armed)
  rearm-IsArmed [] armed = tt
  rearm-IsArmed ((t, x) ∷ rest) armed = refl

pub data Call (F : Type 0) : Type 0 where
  runs_at : ℕ → F → Call F
  runs_every : ℕ → ℕ → F → Call F
  cancels : ℕ → Call F
  -- A pass of processTimers, with what the clock shows in it.
  expires : ℕ → (ℕ → ℕ) → Call F

module _ {F : Type 0} (call : F → TimerQueue F → TimerQueue F) where
  -- The queue after a call, and the ids of the timers whose callbacks ran.
  unfoldable pub perform : Call F → TimerQueue F → TimerQueue F × List ℕ
  unfolding run_at run_every
  perform (runs_at when cb) q = ((run_at when cb q).1, [])
  perform (runs_every now interval cb) q = ((run_every now interval cb q).1, [])
  perform (cancels id) q = (cancel_timer id q, [])
  perform (expires now clock) q = process_timers call clock now q

  unfoldable pub perform_all : List (Call F) → TimerQueue F → TimerQueue F × List ℕ
  perform_all [] q = (q, [])
  perform_all (c ∷ calls) q =
      let (q', ids) = perform c q in let (q'', more) = perform_all calls q' in (q'', ids ++ more)

  -- Callbacks only use the timers through the loop's methods.
  abbrev pub KeepsSorted : Type 0
  KeepsSorted = (f : F) (q : TimerQueue F) → IsSorted q.timers → IsSorted (call f q).timers

  module _ (k : KeepsSorted) (clock : ℕ → ℕ) where
    called-IsSorted :
        (x : Timer F) (q : TimerQueue F)
        → IsSorted q.timers
        → IsSorted (called call clock x q).0.timers
    called-IsSorted x q s = elim (Bool-cases (has x.id q.cancelled)) [
      | inl off ↦ rw off s
      | inr on ↦ rw on (k x.callback q s)
    ]

    finish-IsSorted :
        (x : Timer F) (interval : Option ℕ) (q : TimerQueue F)
        → IsSorted q.timers
        → IsSorted (finish call clock x interval q).timers
    unfolding schedule
    finish-IsSorted x none q s = s
    finish-IsSorted x (some interval) q s = elim (Bool-cases (has x.id q.cancelled)) [
      | inl off ↦ rw off s
      | inr on ↦ rw on (emplace-IsSorted (clock x.id + interval) x q.timers s)
    ]

    fire_all-IsSorted :
        (xs : List (Timer F)) (q : TimerQueue F)
        → IsSorted q.timers
        → IsSorted (fire_all call clock xs q).0.timers
    unfolding fire_all fire
    fire_all-IsSorted [] q s = s
    fire_all-IsSorted (x ∷ xs) q s =
        fire_all-IsSorted xs (fire call clock x q).0
          (finish-IsSorted x x.interval (called call clock x q).0 (called-IsSorted x q s))

    process_timers-IsValid :
        (now : ℕ) (q : TimerQueue F) → IsValid q → IsValid (process_timers call clock now q).0
    unfolding process_timers
    process_timers-IsValid now q v =
        let (front, e, d, a, b, s) = collect-Split now q.timers v.sorted in
        record {
          sorted =
              fire_all-IsSorted (collect now q.timers).0
                (record q { timers = (collect now q.timers).1 }) s;
          set = rearm-IsArmed _ _;
        }

  cancel_timer-IsValid : (id : ℕ) (q : TimerQueue F) → IsValid q → IsValid (cancel_timer id q)
  unfolding cancel_timer
  cancel_timer-IsValid id q v = elim (Bool-cases (has id q.tokens)) [
    | inl there ↦ rw there (record { sorted = v.sorted; set = v.set })
    | inr missing ↦ rw missing v
  ]

  perform-IsValid :
      KeepsSorted → (c : Call F) (q : TimerQueue F) → IsValid q → IsValid (perform c q).0
  unfolding perform
  perform-IsValid k (runs_at when cb) q v =
      schedule-IsValid when _ (new_id q) (record { sorted = v.sorted; set = v.set })
  perform-IsValid k (runs_every now interval cb) q v =
      schedule-IsValid (now + interval) _ (new_id q) (record { sorted = v.sorted; set = v.set })
  perform-IsValid k (cancels id) q v = cancel_timer-IsValid id q v
  perform-IsValid k (expires now clock) q v = process_timers-IsValid k clock now q v

  -- Over any calls of runAt, runEvery, cancelTimer and processTimers whose callbacks keep the order, the timers
  -- stay in the order of their times, and the timerfd was set last for the first of them, so that none is
  -- forgotten.
  pub perform_all-IsValid :
      KeepsSorted
      → (calls : List (Call F)) (q : TimerQueue F) → IsValid q
      → IsValid (perform_all calls q).0
  unfolding perform_all
  perform_all-IsValid k [] q v = v
  perform_all-IsValid k (c ∷ calls) q v =
      perform_all-IsValid k calls (perform c q).0 (perform-IsValid k c q v)
