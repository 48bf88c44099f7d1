-- ===== src/Net/Loop/Tests.antt =====
-- A loop that another thread wakes with a closure, for the theorems about the event loop.
use iot_distributed_gateway.Common.{ℕ, [], ◌∷◌, false, refl, arith, ◌≤◌, ◌≡◌}
use iot_distributed_gateway.Net.Loop.{
  EventLoop, System, polling, Steps, done, step, poll_returns, wakeup_read, pending_taken,
  functor_called, queued_by_functor, round_ends, queued_elsewhere, wakeup_elsewhere,
  handle_wakeup_read, wakeup, push_functor, must_wake, queue_in_loop, take_pending, end_pending,
  next_round,
}
use iot_distributed_gateway.Net.Loop.Wakeups.{IsSafe, InOrder, Steps-Safe, Steps-InOrder}
use iot_distributed_gateway.Net.Loop.Growth.{Begins, ByLoop, rounds}
use iot_distributed_gateway.Net.Loop.Progress.{Steps-Begins}

abbrev fresh : EventLoop ℕ
fresh = record {
  quit = false;
  calling_pending_functors = false;
  pending_functors = [];
  wakeups = 0;
}

abbrev entered : System ℕ
entered = record { loop = fresh; phase = polling; waking = 0; queued = []; called = [] }

-- Closure 1 comes from elsewhere; while it runs it queues closure 2, for the next round.
abbrev waiting : System ℕ
waiting = record {
  loop = record {
    quit = false;
    calling_pending_functors = false;
    pending_functors = 2 ∷ [];
    wakeups = 1;
  };
  phase = polling;
  waking = 0;
  queued = 1 ∷ 2 ∷ [];
  called = 1 ∷ [];
}

a_round : Steps entered waiting
unfolding push_functor wakeup handle_wakeup_read take_pending queue_in_loop must_wake end_pending
    next_round
a_round = step (queued_elsewhere 1) (
    step wakeup_elsewhere (
      step poll_returns (
        step wakeup_read (
          step pending_taken
            (step (functor_called 1) (step (queued_by_functor 2) (step round_ends done)))))))

Steps-Safe_example : IsSafe waiting
Steps-Safe_example =
    Steps-Safe a_round (λ k. absurd (omega arith), λ q. absurd (ground arith), refl)

Steps-InOrder_example : InOrder waiting
Steps-InOrder_example = Steps-InOrder a_round refl

-- Closure 1 is in the queue; two rounds of which the second only polls again.
abbrev one_queued : System ℕ
one_queued = record {
  loop = record {
    quit = false;
    calling_pending_functors = false;
    pending_functors = 1 ∷ [];
    wakeups = 1;
  };
  phase = polling;
  waking = 0;
  queued = 1 ∷ [];
  called = [];
}

abbrev one_called : System ℕ
one_called = record {
  loop = record {
    quit = false;
    calling_pending_functors = false;
    pending_functors = [];
    wakeups = 1;
  };
  phase = polling;
  waking = 0;
  queued = 1 ∷ [];
  called = 1 ∷ [];
}

abbrev two_rounds : Steps one_queued one_called
unfolding take_pending end_pending next_round
two_rounds = step poll_returns (
    step pending_taken (
      step (functor_called 1)
        (step round_ends (step poll_returns (step pending_taken (step round_ends done))))))

two_rounds_end : 2 ≤ rounds two_rounds
unfolding rounds take_pending end_pending next_round two_rounds
two_rounds_end = omega arith

Steps-Begins_example :
    ((u : System ℕ) × (own : Steps one_queued u) × (rounds own ≡ 2) × ByLoop own)
    × Begins one_queued.queued one_called.called
Steps-Begins_example = Steps-Begins one_queued one_called two_rounds refl refl refl two_rounds_end
