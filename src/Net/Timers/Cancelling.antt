-- ===== src/Net/Timers/Cancelling.antt =====
-- EventLoop::cancelTimer and processTimers in src/net/EventLoop.cpp: whose callbacks run.
use iot_distributed_gateway.Common.{
  ℕ, ◌==◌, ==_iff, ◌≡◌, refl, ap, ◌∙◌, List, [], ◌∷◌, ◌++◌, true, false, Option, none, some,
  Bool-cases, inl, inr, arith,
}
use iot_distributed_gateway.Net.Timers.{
  Timer, TimerQueue, schedule, cancel_timer, has, collect, called, finish, fire, fire_all,
  process_timers,
}
use iot_distributed_gateway.Net.Timers.Validity.{
  Call, runs_at, runs_every, cancels, expires, perform, perform_all,
}

has-append :
    (id : ℕ) (xs ys : List ℕ) → has id xs ≡ false → has id ys ≡ false → has id (xs ++ ys) ≡ false
has-append id [] ys h k = k
has-append id (x ∷ xs) ys h k = ground (arith, has-append id xs ys)

module _ {F : Type 0} (call : F → TimerQueue F → TimerQueue F) where
  -- Callbacks never take back that a timer was cancelled.
  abbrev pub KeepsCancelled : Type 0
  KeepsCancelled =
      (f : F) (q : TimerQueue F) (id : ℕ)
      → has id q.cancelled ≡ true
      → has id (call f q).cancelled ≡ true

  -- The timer stays cancelled and its callback did not run.
  abbrev pub IsSilent : ℕ → TimerQueue F × List ℕ → Type 0
  IsSilent id r = (has id r.0.cancelled ≡ true) × (has id r.1 ≡ false)

  pub finish-cancelled :
      (clock : ℕ → ℕ) (x : Timer F) (interval : Option ℕ) (q : TimerQueue F)
      → (finish call clock x interval q).cancelled ≡ q.cancelled
  unfolding schedule
  finish-cancelled clock x none q = refl
  finish-cancelled clock x (some interval) q = elim (Bool-cases (has x.id q.cancelled)) [
    | inl off ↦ rw off refl
    | inr on ↦ rw on refl
  ]

  module _ (k : KeepsCancelled) (id : ℕ) where
    called-IsSilent :
        (clock : ℕ → ℕ) (x : Timer F) (q : TimerQueue F)
        → has id q.cancelled ≡ true
        → IsSilent id (called call clock x q)
    called-IsSilent clock x q h = elim (Bool-cases (has x.id q.cancelled)) [
      | inl off ↦ rw off (h, refl)
      | inr on ↦ elim (Bool-cases (x.id == id)) [
        | inl same ↦
            let e : x.id ≡ id = (==_iff x.id id).0 same in
            absurd (ground (arith, ap (λ (j : ℕ). has j q.cancelled) e))
        | inr other ↦ rw on (k x.callback q id h, rw other refl)
      ]
    ]

    fire-IsSilent :
        (clock : ℕ → ℕ) (x : Timer F) (q : TimerQueue F)
        → has id q.cancelled ≡ true
        → IsSilent id (fire call clock x q)
    unfolding fire
    fire-IsSilent clock x q h =
        let (a, b) = called-IsSilent clock x q h in
        (ap (has id) (finish-cancelled clock x x.interval (called call clock x q).0) ∙ a, b)

    fire_all-IsSilent :
        (clock : ℕ → ℕ) (xs : List (Timer F)) (q : TimerQueue F)
        → has id q.cancelled ≡ true
        → IsSilent id (fire_all call clock xs q)
    unfolding fire_all
    fire_all-IsSilent clock [] q h = (h, refl)
    fire_all-IsSilent clock (x ∷ xs) q h =
        let (a, b) = fire-IsSilent clock x q h in
        let (c, d) = fire_all-IsSilent clock xs (fire call clock x q).0 a in
        (
          c,
          has-append id (fire call clock x q).1 (fire_all call clock xs (fire call clock x q).0).1 b
              d,
        )

    cancel_timer-keeps :
        (j : ℕ) (q : TimerQueue F)
        → has id q.cancelled ≡ true
        → has id (cancel_timer j q).cancelled ≡ true
    unfolding cancel_timer
    cancel_timer-keeps j q h = elim (Bool-cases (has j q.tokens)) [
      | inl there ↦ rw there (ground arith)
      | inr missing ↦ rw missing h
    ]

    perform-IsSilent :
        (c : Call F) (q : TimerQueue F) → has id q.cancelled ≡ true → IsSilent id (perform call c q)
    unfolding perform schedule process_timers
    perform-IsSilent (runs_at when cb) q h = (h, refl)
    perform-IsSilent (runs_every now interval cb) q h = (h, refl)
    perform-IsSilent (cancels j) q h = (cancel_timer-keeps j q h, refl)
    perform-IsSilent (expires now clock) q h =
        fire_all-IsSilent clock (collect now q.timers).0
          (record q { timers = (collect now q.timers).1 }) h

    perform_all-IsSilent :
        (calls : List (Call F)) (q : TimerQueue F)
        → has id q.cancelled ≡ true
        → IsSilent id (perform_all call calls q)
    unfolding perform_all
    perform_all-IsSilent [] q h = (h, refl)
    perform_all-IsSilent (c ∷ calls) q h =
        let (a, b) = perform-IsSilent c q h in
        let (d, e) = perform_all-IsSilent calls (perform call c q).0 a in
        (d, has-append id (perform call c q).1 (perform_all call calls (perform call c q).0).1 b e)

  -- After cancelTimer of a timer whose token is registered, no later call of runAt, runEvery, cancelTimer or
  -- processTimers runs that timer's callback, also where the timer was due or repeats, as long as the
  -- callbacks that run take back no cancelling.
  pub cancel_timer-IsSilent :
      KeepsCancelled
      → (id : ℕ) (calls : List (Call F)) (q : TimerQueue F) → has id q.tokens ≡ true
      → IsSilent id (perform_all call calls (cancel_timer id q))
  unfolding cancel_timer
  cancel_timer-IsSilent k id calls q h =
      let self : (id == id) ≡ true = ground arith in
      perform_all-IsSilent k id calls (cancel_timer id q) (rw h (rw self refl))
