-- ===== src/Net/Loop/Growth.antt =====
-- src/net/EventLoop.cpp: what a step of the loop adds to the closures called.
use iot_distributed_gateway.Common.{
  ℕ, suc, ◌+◌, ◌≤◌, List, [], ◌∷◌, ◌++◌, Bool, true, false, append-nil, append_assoc, ◌≡◌, refl,
  sym, ap, ◌∙◌, arith, Bool-cases, inl, inr, ◌⊎◌,
}
use iot_distributed_gateway.Net.Loop.{
  EventLoop, System, Phase, polling, dispatching, running, stopped, Step, Steps, wakeup,
  handle_wakeup_read, push_functor, queue_in_loop, set_quit, take_pending, end_pending, next_round,
  done, step, poll_returns, wakeup_read, queued_by_handler, queued_by_functor, quit_by_handler,
  quit_by_functor, pending_taken, functor_called, round_ends, queued_elsewhere, quit_elsewhere,
  wakeup_elsewhere,
}
use Prim.{Unit}
use iot_distributed_gateway.Net.Loop.Wakeups.{taken, queue_in_loop-pending}

module _ {F : Type 0} where
  abbrev pub Begins : List F → List F → Type 0
  Begins xs ys = (rest : List F) × (ys ≡ xs ++ rest)

  Begins-refl : (xs : List F) → Begins xs xs
  Begins-refl xs = ([], sym (append-nil xs))

  Begins-trans : (xs ys zs : List F) → Begins xs ys → Begins ys zs → Begins xs zs
  Begins-trans xs ys zs (a, e) (b, d) =
      (a ++ b, d ∙ ap (λ (l : List F). l ++ b) e ∙ append_assoc xs a b)

  Begins-append : (c xs ys : List F) → Begins xs ys → Begins (c ++ xs) (c ++ ys)
  Begins-append c xs ys (a, e) = (a, ap (◌++◌ c) e ∙ sym (append_assoc c xs a))

  -- Whether a round of the loop ends with the step.
  abbrev pub ends_round : {s t : System F} → Step s t → ℕ
  ends_round poll_returns = 0
  ends_round wakeup_read = 0
  ends_round (queued_by_handler cb) = 0
  ends_round (queued_by_functor cb) = 0
  ends_round quit_by_handler = 0
  ends_round quit_by_functor = 0
  ends_round pending_taken = 0
  ends_round (functor_called f) = 0
  ends_round round_ends = 1
  ends_round (queued_elsewhere cb) = 0
  ends_round quit_elsewhere = 0
  ends_round wakeup_elsewhere = 0

  ends_round-cases : {s t : System F} (a : Step s t) → (ends_round a ≡ 0) ⊎ (ends_round a ≡ 1)
  ends_round-cases round_ends = inr refl
  ends_round-cases poll_returns = inl refl
  ends_round-cases wakeup_read = inl refl
  ends_round-cases (queued_by_handler cb) = inl refl
  ends_round-cases (queued_by_functor cb) = inl refl
  ends_round-cases quit_by_handler = inl refl
  ends_round-cases quit_by_functor = inl refl
  ends_round-cases pending_taken = inl refl
  ends_round-cases (functor_called f) = inl refl
  ends_round-cases (queued_elsewhere cb) = inl refl
  ends_round-cases quit_elsewhere = inl refl
  ends_round-cases wakeup_elsewhere = inl refl

  unfoldable pub rounds : {s t : System F} → Steps s t → ℕ
  rounds done = 0
  rounds (step a rest) = ends_round a + rounds rest

  -- Whether the step is one of the loop's thread.
  abbrev pub is_own : {s t : System F} → Step s t → Bool
  is_own poll_returns = true
  is_own wakeup_read = true
  is_own (queued_by_handler cb) = true
  is_own (queued_by_functor cb) = true
  is_own quit_by_handler = true
  is_own quit_by_functor = true
  is_own pending_taken = true
  is_own (functor_called f) = true
  is_own round_ends = true
  is_own (queued_elsewhere cb) = false
  is_own quit_elsewhere = false
  is_own wakeup_elsewhere = false

  abbrev pub ByLoop : {s t : System F} → Steps s t → Type 0
  ByLoop done = Unit {0}
  ByLoop (step a rest) = (is_own a ≡ true) × ByLoop rest

  -- What is called when the round at hand has ended.
  abbrev soon_at : Phase F → List F → List F → List F
  soon_at polling pending c = c ++ pending
  soon_at dispatching pending c = c ++ pending
  soon_at (running fs) pending c = c ++ fs
  soon_at stopped pending c = c ++ pending

  abbrev soon : System F → List F
  soon s = soon_at s.phase s.loop.pending_functors s.called

  abbrev pub all : System F → List F
  all s = s.called ++ (taken s.phase ++ s.loop.pending_functors)

  abbrev Grows : System F → System F → Type 0
  Grows s t = Begins s.called t.called × Begins (soon s) (soon t) × Begins (all s) (all t)

  soon-Begins :
      (p : Phase F) (c pending more : List F)
      → Begins (soon_at p pending c) (soon_at p (pending ++ more) c)
  soon-Begins polling c pending more = Begins-append c _ _ (more, refl)
  soon-Begins dispatching c pending more = Begins-append c _ _ (more, refl)
  soon-Begins (running fs) c pending more = Begins-refl (c ++ fs)
  soon-Begins stopped c pending more = Begins-append c _ _ (more, refl)

  pend-Grows :
      (p : Phase F) (c q q' more : List F) (e e' : EventLoop F) (n n' : ℕ)
      → e'.pending_functors ≡ e.pending_functors ++ more
      → Grows
          (record { loop = e; phase = p; waking = n; queued = q; called = c })
          (record { loop = e'; phase = p; waking = n'; queued = q'; called = c })
  pend-Grows p c q q' more e e' n n' h = rw h (
    Begins-refl c,
    soon-Begins p c e.pending_functors more,
    Begins-append c _ _ (Begins-append (taken p) _ _ (more, refl)),
  )

  same-Grows :
      (p : Phase F) (c q q' : List F) (e e' : EventLoop F) (n n' : ℕ)
      → e'.pending_functors ≡ e.pending_functors
      → Grows
          (record { loop = e; phase = p; waking = n; queued = q; called = c })
          (record { loop = e'; phase = p; waking = n'; queued = q'; called = c })
  same-Grows p c q q' e e' n n' h =
      pend-Grows p c q q' [] e e' n n' (h ∙ sym (append-nil e.pending_functors))

  Step-Grows : {s t : System F} (a : Step s t) → ends_round a ≡ 0 → Grows s t
  unfolding handle_wakeup_read take_pending set_quit push_functor wakeup
  Step-Grows (poll_returns {e = e} {c = c}) h = (Begins-refl c, Begins-refl _, Begins-refl _)
  Step-Grows (wakeup_read {e = e} {n = n} {q = q} {c = c}) h =
      same-Grows dispatching c q q e (handle_wakeup_read e) n n refl
  Step-Grows (queued_by_handler {e = e} {n = n} {q = q} {c = c} cb) h =
      pend-Grows dispatching c q (q ++ (cb ∷ [])) (cb ∷ []) e (queue_in_loop true cb e) n n
        (queue_in_loop-pending true e cb)
  Step-Grows (queued_by_functor {e = e} {n = n} {q = q} {c = c} {fs = fs} cb) h =
      pend-Grows (running fs) c q (q ++ (cb ∷ [])) (cb ∷ []) e (queue_in_loop true cb e) n n
        (queue_in_loop-pending true e cb)
  Step-Grows (quit_by_handler {e = e} {n = n} {q = q} {c = c}) h =
      same-Grows dispatching c q q e (set_quit e) n n refl
  Step-Grows (quit_by_functor {e = e} {n = n} {q = q} {c = c} {fs = fs}) h =
      same-Grows (running fs) c q q e (set_quit e) n n refl
  Step-Grows (pending_taken {e = e} {c = c}) h =
      (Begins-refl c, Begins-refl _, Begins-append c _ _ ([], refl))
  Step-Grows (functor_called {e = e} {c = c} {fs = fs} f) h = (
    (f ∷ [], refl),
    ([], append_assoc c (f ∷ []) fs ∙ sym (append-nil (c ++ (f ∷ fs)))),
    ([], append_assoc c (f ∷ []) (fs ++ e.pending_functors) ∙ sym (append-nil _)),
  )
  Step-Grows round_ends h = absurd (omega arith)
  Step-Grows (queued_elsewhere {e = e} {p = p} {n = n} {q = q} {c = c} cb) h =
      pend-Grows p c q (q ++ (cb ∷ [])) (cb ∷ []) e (push_functor cb e) n (suc n) refl
  Step-Grows (quit_elsewhere {e = e} {p = p} {n = n} {q = q} {c = c}) h =
      same-Grows p c q q e (set_quit e) n (suc n) refl
  Step-Grows (wakeup_elsewhere {e = e} {p = p} {n = n} {q = q} {c = c}) h =
      same-Grows p c q q e (wakeup e) (suc n) n refl

  next_round-soon :
      (e : EventLoop F) (c pending : List F) → soon_at (next_round e) pending c ≡ c ++ pending
  unfolding next_round
  next_round-soon e c pending = elim (Bool-cases e.quit) [
    | inl leaves ↦ rw leaves refl
    | inr stays ↦ rw stays refl
  ]

  -- When a round ends, what was to be called soon is called, and all that was queued is next.
  Step-ends_round :
      {s t : System F} (a : Step s t)
      → ends_round a ≡ 1
      → (Begins s.called t.called) × (Begins (soon s) t.called) × (Begins (all s) (soon t))
  unfolding end_pending
  Step-ends_round (round_ends {e = e} {c = c}) h = (
    Begins-refl c,
    ([], sym (append-nil c) ∙ sym (append-nil (c ++ []))),
    ([], next_round-soon e c e.pending_functors ∙ sym (append-nil (c ++ e.pending_functors))),
  )
  Step-ends_round _ h = absurd (omega arith)

  run_called : {s t : System F} → Steps s t → Begins s.called t.called
  run_called (done {s = s}) = Begins-refl s.called
  run_called (step {s = s} {t = t} {u = u} a rest) =
      Begins-trans s.called t.called u.called
        (elim (ends_round-cases a) [
          | inl none ↦ (Step-Grows a none).0
          | inr one ↦ (Step-ends_round a one).0
        ])
        (run_called rest)

  run_soon : {s t : System F} (run : Steps s t) → 1 ≤ rounds run → Begins (soon s) t.called
  unfolding rounds
  run_soon done h = absurd (omega arith)
  run_soon (step {s = s} {t = t} {u = u} a rest) h = elim (ends_round-cases a) [
    | inl none ↦
        Begins-trans (soon s) (soon t) u.called (Step-Grows a none).1 (run_soon rest (omega arith))
    | inr one ↦ Begins-trans (soon s) t.called u.called (Step-ends_round a one).1 (run_called rest)
  ]

  pub run_all : {s t : System F} (run : Steps s t) → 2 ≤ rounds run → Begins (all s) t.called
  unfolding rounds
  run_all done h = absurd (omega arith)
  run_all (step {s = s} {t = t} {u = u} a rest) h = elim (ends_round-cases a) [
    | inl none ↦
        Begins-trans (all s) (all t) u.called (Step-Grows a none).2 (run_all rest (omega arith))
    | inr one ↦
        Begins-trans (all s) (soon t) u.called (Step-ends_round a one).2
          (run_soon rest (omega arith))
  ]
