-- ===== src/Net/Loop/Wakeups.antt =====
-- src/net/EventLoop.cpp: the wake-ups of the loop beside other threads, and the order of the closures.
use iot_distributed_gateway.Common.{
  ℕ, suc, ◌+◌, ◌<◌, List, [], ◌∷◌, ◌++◌, Bool, true, false, ltb, length, append-nil, append_assoc,
  ◌≡◌, refl, sym, ap, ◌∙◌, arith, Bool-cases, inl, inr,
}
use Prim.{Unit, tt}
use iot_distributed_gateway.Net.Loop.{
  EventLoop, System, Phase, polling, dispatching, running, stopped, Step, Steps, wakeup,
  handle_wakeup_read, push_functor, must_wake, queue_in_loop, set_quit, take_pending, end_pending,
  next_round, eventfd_max, done, step, poll_returns, wakeup_read, queued_by_handler,
  queued_by_functor, quit_by_handler, quit_by_functor, pending_taken, functor_called, round_ends,
  queued_elsewhere, quit_elsewhere, wakeup_elsewhere,
}

module _ {F : Type 0} where
  -- The eventfd can be read, or another thread is about to write it.
  abbrev pub Woken : EventLoop F → ℕ → Type 0
  Woken e n = 0 < e.wakeups + n

  -- What is certain of the loop where its thread is.
  abbrev pub Safe : Phase F → EventLoop F → ℕ → Type 0
  Safe polling e n =
      (0 < length e.pending_functors → Woken e n)
      × (e.quit ≡ true → Woken e n)
      × (e.calling_pending_functors ≡ false)
  Safe dispatching e n = e.calling_pending_functors ≡ false
  Safe stopped e n = Unit {0}
  Safe (running fs) e n =
      (0 < length e.pending_functors → Woken e n) × (e.calling_pending_functors ≡ true)

  abbrev pub IsSafe : System F → Type 0
  IsSafe s = Safe s.phase s.loop s.waking

  -- The closures that doPendingFunctors took and has not called.
  abbrev pub taken : Phase F → List F
  taken (running fs) = fs
  taken polling = []
  taken dispatching = []
  taken stopped = []

  abbrev pub InOrder : System F → Type 0
  InOrder s = s.called ++ (taken s.phase ++ s.loop.pending_functors) ≡ s.queued

  wakeup-Woken : (e : EventLoop F) (n : ℕ) → Woken (wakeup e) n
  unfolding wakeup
  wakeup-Woken e n = elim (Bool-cases (ltb e.wakeups eventfd_max)) [
    | inl room ↦ rw room (omega arith)
    | inr full ↦ rw full (ground arith)
  ]

  queue_in_loop-calling :
      (e : EventLoop F) (cb : F)
      → (queue_in_loop true cb e).calling_pending_functors ≡ e.calling_pending_functors
  unfolding queue_in_loop push_functor must_wake wakeup
  queue_in_loop-calling e cb = elim (Bool-cases e.calling_pending_functors) [
    | inl calling ↦ rw calling refl
    | inr idle ↦ rw idle refl
  ]

  pub queue_in_loop-pending :
      (b : Bool) (e : EventLoop F) (cb : F)
      → (queue_in_loop b cb e).pending_functors ≡ e.pending_functors ++ (cb ∷ [])
  unfolding queue_in_loop push_functor wakeup
  queue_in_loop-pending b e cb = elim (Bool-cases (must_wake b (push_functor cb e))) [
    | inl wake ↦ rw wake refl
    | inr quiet ↦ rw quiet refl
  ]

  queue_in_loop-Woken :
      (e : EventLoop F) (cb : F) (n : ℕ)
      → e.calling_pending_functors ≡ true
      → Woken (queue_in_loop true cb e) n
  unfolding queue_in_loop must_wake push_functor wakeup
  queue_in_loop-Woken e cb n h = rw h (wakeup-Woken (push_functor cb e) n)

  wakeup-Safe : (p : Phase F) (e : EventLoop F) (n : ℕ) → Safe p e (suc n) → Safe p (wakeup e) n
  unfolding wakeup
  wakeup-Safe polling e n h = (λ _. wakeup-Woken e n, λ _. wakeup-Woken e n, h.2)
  wakeup-Safe dispatching e n h = h
  wakeup-Safe stopped e n h = tt
  wakeup-Safe (running fs) e n h = (λ _. wakeup-Woken e n, h.1)

  push_functor-Safe :
      (cb : F) (p : Phase F) (e : EventLoop F) (n : ℕ)
      → Safe p e n
      → Safe p (push_functor cb e) (suc n)
  unfolding push_functor
  push_functor-Safe cb polling e n h = (λ _. omega arith, λ _. omega arith, h.2)
  push_functor-Safe cb dispatching e n h = h
  push_functor-Safe cb stopped e n h = tt
  push_functor-Safe cb (running fs) e n h = (λ _. omega arith, h.1)

  set_quit-Safe : (p : Phase F) (e : EventLoop F) (n : ℕ) → Safe p e n → Safe p (set_quit e) (suc n)
  unfolding set_quit
  set_quit-Safe polling e n h = (λ _. omega arith, λ _. omega arith, h.2)
  set_quit-Safe dispatching e n h = h
  set_quit-Safe stopped e n h = tt
  set_quit-Safe (running fs) e n h = (λ _. omega arith, h.1)

  round_ends-Safe :
      (e : EventLoop F) (n : ℕ) → Safe (running []) e n → Safe (next_round e) (end_pending e) n
  unfolding next_round end_pending
  round_ends-Safe e n h = elim (Bool-cases e.quit) [
    | inl leaves ↦ rw leaves tt
    | inr stays ↦ rw stays (h.0, λ q. absurd (ground arith), refl)
  ]

  Step-Safe : {s t : System F} → Step s t → IsSafe s → IsSafe t
  unfolding handle_wakeup_read take_pending set_quit
  Step-Safe poll_returns h = h.2
  Step-Safe wakeup_read h = h
  Step-Safe (queued_by_handler {e = e} cb) h = queue_in_loop-calling e cb ∙ h
  Step-Safe (queued_by_functor {e = e} {n = n} cb) h =
      (λ _. queue_in_loop-Woken e cb n h.1, queue_in_loop-calling e cb ∙ h.1)
  Step-Safe quit_by_handler h = h
  Step-Safe quit_by_functor h = h
  Step-Safe pending_taken h = (λ k. absurd (omega arith), refl)
  Step-Safe (functor_called f) h = h
  Step-Safe (round_ends {e = e} {n = n}) h = round_ends-Safe e n h
  Step-Safe (queued_elsewhere {e = e} {p = p} {n = n} cb) h = push_functor-Safe cb p e n h
  Step-Safe (quit_elsewhere {e = e} {p = p} {n = n}) h = set_quit-Safe p e n h
  Step-Safe (wakeup_elsewhere {e = e} {p = p} {n = n}) h = wakeup-Safe p e n h

  -- Steps of the threads in any order lead from a safe state of the event loop to a safe one: wherever
  -- the loop waits in epoll_wait with a closure queued or after quit, its eventfd can be read or a thread
  -- is about to write it; the same holds of queued closures while doPendingFunctors runs; and
  -- callingPendingFunctors_ is true there, false in epoll_wait and in the callbacks of channels.
  pub Steps-Safe : {s t : System F} → Steps s t → IsSafe s → IsSafe t
  Steps-Safe done h = h
  Steps-Safe (step a rest) h = Steps-Safe rest (Step-Safe a h)

  queued-InOrder :
      (c fs ps q : List F) (cb : F)
      → c ++ (fs ++ ps) ≡ q
      → c ++ (fs ++ (ps ++ (cb ∷ []))) ≡ q ++ (cb ∷ [])
  queued-InOrder c fs ps q cb h =
      ap (◌++◌ c) (sym (append_assoc fs ps (cb ∷ [])))
      ∙ sym (append_assoc c (fs ++ ps) (cb ∷ []))
      ∙ ap (λ (l : List F). l ++ (cb ∷ [])) h

  queue_in_loop-InOrder :
      (e : EventLoop F) (c fs q : List F) (cb : F)
      → c ++ (fs ++ e.pending_functors) ≡ q
      → c ++ (fs ++ (queue_in_loop true cb e).pending_functors) ≡ q ++ (cb ∷ [])
  queue_in_loop-InOrder e c fs q cb h =
      ap (λ (l : List F). c ++ (fs ++ l)) (queue_in_loop-pending true e cb)
      ∙ queued-InOrder c fs e.pending_functors q cb h

  next_round-taken : (e : EventLoop F) → taken (next_round e) ≡ []
  unfolding next_round
  next_round-taken e = elim (Bool-cases e.quit) [
    | inl leaves ↦ rw leaves refl
    | inr stays ↦ rw stays refl
  ]

  pub Step-InOrder : {s t : System F} → Step s t → InOrder s → InOrder t
  unfolding handle_wakeup_read take_pending set_quit end_pending push_functor wakeup
  Step-InOrder poll_returns h = h
  Step-InOrder wakeup_read h = h
  Step-InOrder (queued_by_handler {e = e} {q = q} {c = c} cb) h =
      queue_in_loop-InOrder e c [] q cb h
  Step-InOrder (queued_by_functor {e = e} {q = q} {c = c} {fs = fs} cb) h =
      queue_in_loop-InOrder e c fs q cb h
  Step-InOrder quit_by_handler h = h
  Step-InOrder quit_by_functor h = h
  Step-InOrder (pending_taken {e = e} {c = c}) h = ap (◌++◌ c) (append-nil e.pending_functors) ∙ h
  Step-InOrder (functor_called {e = e} {c = c} {fs = fs} f) h =
      append_assoc c (f ∷ []) (fs ++ e.pending_functors) ∙ h
  Step-InOrder (round_ends {e = e} {c = c}) h =
      ap (λ (l : List F). c ++ (l ++ e.pending_functors)) (next_round-taken e) ∙ h
  Step-InOrder (queued_elsewhere {e = e} {p = p} {q = q} {c = c} cb) h =
      queued-InOrder c (taken p) e.pending_functors q cb h
  Step-InOrder quit_elsewhere h = h
  Step-InOrder wakeup_elsewhere h = h

  -- Steps of the threads in any order keep it that the closures called, those that doPendingFunctors took
  -- and those still queued are together the closures queued, in the order of the queueing.
  pub Steps-InOrder : {s t : System F} → Steps s t → InOrder s → InOrder t
  Steps-InOrder done h = h
  Steps-InOrder (step a rest) h = Steps-InOrder rest (Step-InOrder a h)
