-- ===== src/Net/Loop/Progress.antt =====
-- src/net/EventLoop.cpp: queued closures are called.
use iot_distributed_gateway.Common.{
  ℕ, ◌+◌, ◌≤◌, List, [], ◌∷◌, ◌++◌, Bool, true, false, ◌≡◌, refl, subst, arith,
}
use iot_distributed_gateway.Net.Loop.{
  EventLoop, System, Phase, polling, dispatching, running, stopped, Step, Steps, take_pending,
  end_pending, next_round, done, step, poll_returns, pending_taken, functor_called, round_ends,
}
use iot_distributed_gateway.Net.Loop.Wakeups.{InOrder}
use iot_distributed_gateway.Net.Loop.Growth.{Begins, ends_round, rounds, run_all, is_own, ByLoop}
use Prim.{tt}

module _ {F : Type 0} where
  abbrev append_steps : {s t u : System F} → Steps s t → Steps t u → Steps s u
  append_steps done b = b
  append_steps (step x a) b = step x (append_steps a b)

  rounds-append_steps :
      {s t u : System F} (a : Steps s t) (b : Steps t u)
      → rounds (append_steps a b) ≡ rounds a + rounds b
  unfolding rounds
  rounds-append_steps done b = omega arith
  rounds-append_steps (step x a) b = omega (arith, rounds-append_steps a b)

  ByLoop-append_steps :
      {s t u : System F} (a : Steps s t) (b : Steps t u)
      → ByLoop a
      → ByLoop b
      → ByLoop (append_steps a b)
  ByLoop-append_steps done b h k = k
  ByLoop-append_steps (step x a) b h k = (h.0, ByLoop-append_steps a b h.1 k)

  abbrev pub is_stopped : Phase F → Bool
  is_stopped polling = false
  is_stopped dispatching = false
  is_stopped (running fs) = false
  is_stopped stopped = true

  -- The loop's thread gets to epoll_wait again by its own steps, in one round.
  abbrev Returns : System F → Type 0
  Returns s =
      (t : System F) × (run : Steps s t) × (rounds run ≡ 1)
      × ByLoop run
      × (is_stopped t.phase ≡ false)
      × (t.loop.quit ≡ false)

  prefixed :
      {s t : System F} (a : Step s t) → ends_round a ≡ 0 → is_own a ≡ true → Returns t → Returns s
  unfolding rounds
  prefixed a none mine (u, run, one, own, up, stays) =
      (u, step a run, omega arith, (mine, own), up, stays)

  running-Returns :
      (fs : List F) (e : EventLoop F) (n : ℕ) (q c : List F)
      → e.quit ≡ false
      → Returns (record { loop = e; phase = running fs; waking = n; queued = q; called = c })
  unfolding rounds next_round end_pending
  running-Returns [] e n q c stays =
      (_, step round_ends done, refl, (refl, tt), rw stays refl, stays)
  running-Returns (f ∷ fs) e n q c stays =
      prefixed (functor_called f) refl refl (running-Returns fs e n q (c ++ (f ∷ [])) stays)

  dispatching-Returns :
      (e : EventLoop F) (n : ℕ) (q c : List F)
      → e.quit ≡ false
      → Returns (record { loop = e; phase = dispatching; waking = n; queued = q; called = c })
  unfolding take_pending
  dispatching-Returns e n q c stays =
      prefixed pending_taken refl refl
        (running-Returns (take_pending e).0 (take_pending e).1 n q c stays)

  phase-Returns :
      (p : Phase F) (e : EventLoop F) (n : ℕ) (q c : List F)
      → is_stopped p ≡ false
      → e.quit ≡ false
      → Returns (record { loop = e; phase = p; waking = n; queued = q; called = c })
  phase-Returns polling e n q c up stays =
      prefixed poll_returns refl refl (dispatching-Returns e n q c stays)
  phase-Returns dispatching e n q c up stays = dispatching-Returns e n q c stays
  phase-Returns (running fs) e n q c up stays = running-Returns fs e n q c stays
  phase-Returns stopped e n q c up stays = absurd (ground arith)

  -- Where the closures called, taken and queued are in order, the loop has not been left and quit was not
  -- called, two rounds can be ended by steps of the loop's thread alone; and over any steps of all threads
  -- that end two rounds, all the closures that had been queued before are called, first and in the order of
  -- the queueing.
  pub Steps-Begins :
      (s t : System F) (run : Steps s t)
      → InOrder s
      → is_stopped s.phase ≡ false
      → s.loop.quit ≡ false
      → 2 ≤ rounds run
      → ((u : System F) × (own : Steps s u) × (rounds own ≡ 2) × ByLoop own)
        × Begins s.queued t.called
  Steps-Begins s t run order up stays enough =
      let (t', a, one, mine, up', stays') =
        phase-Returns s.phase s.loop s.waking s.queued s.called up stays in
      let (u, b, two, mine', _, _) =
        phase-Returns t'.phase t'.loop t'.waking t'.queued t'.called up' stays' in
      (
        (
          u,
          append_steps a b,
          omega (arith, rounds-append_steps a b),
          ByLoop-append_steps a b mine mine',
        ),
        subst (λ (l : List F). Begins l t.called) order (run_all run enough),
      )
