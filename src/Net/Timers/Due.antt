-- ===== src/Net/Timers/Due.antt =====
-- EventLoop::processTimers in src/net/EventLoop.cpp: which callbacks a pass runs, and in which order.
use iot_distributed_gateway.Common.{
  ℕ, ◌≤◌, ◌<◌, ◌≡◌, refl, ap, ◌∙◌, List, [], ◌∷◌, ◌++◌, All, if◌then◌else◌, Bool-cases, inl, inr,
}
use iot_distributed_gateway.Net.Timers.{
  Timer, TimerQueue, has, collect, called, fire, fire_all, process_timers,
}
use iot_distributed_gateway.Net.Timers.Order.{IsSorted, collect-Split, timers_of}
use iot_distributed_gateway.Net.Timers.Cancelling.{finish-cancelled}

module _ {F : Type 0} where
  -- The ids of the timers that are not cancelled.
  abbrev pub awake : List ℕ → List (Timer F) → List ℕ
  awake cancelled [] = []
  awake cancelled (x ∷ xs) = (if has x.id cancelled then [] else x.id ∷ []) ++ awake cancelled xs

module _ {F : Type 0} (call : F → TimerQueue F → TimerQueue F)
    (leaves : (f : F) (q : TimerQueue F) → (call f q).cancelled ≡ q.cancelled) (clock : ℕ → ℕ) where
  called_once :
      (x : Timer F) (q : TimerQueue F)
      → ((called call clock x q).0.cancelled ≡ q.cancelled)
        × ((called call clock x q).1 ≡ (if has x.id q.cancelled then [] else x.id ∷ []))
  called_once x q = elim (Bool-cases (has x.id q.cancelled)) [
    | inl off ↦ rw off (refl, refl)
    | inr on ↦ rw on (leaves x.callback q, refl)
  ]

  fire_once :
      (x : Timer F) (q : TimerQueue F)
      → ((fire call clock x q).0.cancelled ≡ q.cancelled)
        × ((fire call clock x q).1 ≡ (if has x.id q.cancelled then [] else x.id ∷ []))
  unfolding fire
  fire_once x q =
      let (a, b) = called_once x q in
      (finish-cancelled call clock x x.interval (called call clock x q).0 ∙ a, b)

  fire_all_once :
      (xs : List (Timer F)) (q : TimerQueue F) → (fire_all call clock xs q).1 ≡ awake q.cancelled xs
  unfolding fire_all
  fire_all_once [] q = refl
  fire_all_once (x ∷ xs) q =
      let (a, b) = fire_once x q in
      ap (◌++◌ (fire call clock x q).1)
        (fire_all_once xs (fire call clock x q).0 ∙ ap (λ (c : List ℕ). awake c xs) a)
      ∙ ap (λ (ids : List ℕ). ids ++ awake q.cancelled xs) b

-- Where the callbacks cancel nothing, a pass of processTimers runs exactly the callbacks of the timers whose
-- time has come and that are not cancelled, each once and in the order of their times: the timers fall
-- into a front whose times are not after the clock's, whose callbacks these are, and the others, whose
-- times are.
pub process_timers-awake :
    {F : Type 0} (call : F → TimerQueue F → TimerQueue F) (clock : ℕ → ℕ) (now : ℕ)
    (q : TimerQueue F)
    → ((f : F) (r : TimerQueue F) → (call f r).cancelled ≡ r.cancelled)
    → IsSorted q.timers
    → (front : List (ℕ × Timer F)) × (left : List (ℕ × Timer F)) × (q.timers ≡ front ++ left)
      × All (λ e. e.0 ≤ now) front
      × All (λ e. now < e.0) left
      × ((process_timers call clock now q).1 ≡ awake q.cancelled (timers_of front))
unfolding process_timers
process_timers-awake call clock now q leaves s =
    let (front, e, d, a, b, c) = collect-Split now q.timers s in
    (
      front,
      (collect now q.timers).1,
      e,
      a,
      b,
      fire_all_once call leaves clock (collect now q.timers).0
            (record q { timers = (collect now q.timers).1 })
          ∙ ap (awake q.cancelled) d,
    )
