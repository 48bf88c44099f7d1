-- ===== src/Net/Loop.antt =====
-- src/net/EventLoop.h and src/net/EventLoop.cpp: the queue of closures, waking the loop, leaving it.
-- The eventfd is its counter. A step is what a thread does between two points where another may come
-- in; the loop's own thread is in epoll_wait, in the channels' callbacks or in doPendingFunctors.
pub mod Wakeups
pub mod Growth
pub mod Progress
mod Tests
use iot_distributed_gateway.Common.{
  ℕ, zero, suc, ◌-◌, ◌^◌, List, [], ◌∷◌, ◌++◌, Bool, true, false, not, ◌||◌, if◌then◌else◌, ltb,
  ◌≡◌,
}

pub record EventLoop (F : Type 0) : Type 0 where
  pub quit : Bool
  pub calling_pending_functors : Bool
  pub pending_functors : List F
  pub wakeups : ℕ

-- A write that would take the counter over this limit fails and leaves it.
abbrev pub eventfd_max : ℕ
eventfd_max = 18446744073709551614

module _ {F : Type 0} where
  unfoldable pub wakeup : EventLoop F → EventLoop F
  wakeup e = record e { wakeups = if ltb e.wakeups eventfd_max then suc e.wakeups else e.wakeups }

  -- Reading takes the counter to 0.
  unfoldable pub handle_wakeup_read : EventLoop F → EventLoop F
  handle_wakeup_read e = record e { wakeups = 0 }

  -- The part of queueInLoop under the lock.
  unfoldable pub push_functor : F → EventLoop F → EventLoop F
  push_functor cb e = record e { pending_functors = e.pending_functors ++ (cb ∷ []) }

  -- The test behind the lock.
  unfoldable pub must_wake : Bool → EventLoop F → Bool
  must_wake in_loop_thread e = not in_loop_thread || e.calling_pending_functors

  unfoldable pub queue_in_loop : Bool → F → EventLoop F → EventLoop F
  queue_in_loop in_loop_thread cb e =
      let pushed = push_functor cb e in
      if must_wake in_loop_thread pushed then wakeup pushed else pushed

  unfoldable pub set_quit : EventLoop F → EventLoop F
  set_quit e = record e { quit = true }

  -- doPendingFunctors up to its loop, with the closures that the loop goes over.
  unfoldable pub take_pending : EventLoop F → List F × EventLoop F
  take_pending e =
      (e.pending_functors, record e { calling_pending_functors = true; pending_functors = [] })

  unfoldable pub end_pending : EventLoop F → EventLoop F
  end_pending e = record e { calling_pending_functors = false }

-- Where the loop's thread is. `running` has the closures that doPendingFunctors has still to call.
pub data Phase (F : Type 0) : Type 0 where
  polling dispatching stopped : Phase F
  running : List F → Phase F

-- `waking` counts the other threads that are between a change and their call of wakeup; `queued` and
-- `called` are the closures queued and called since the loop was entered, in order.
pub record System (F : Type 0) : Type 0 where
  pub loop : EventLoop F
  pub phase : Phase F
  pub waking : ℕ
  pub queued : List F
  pub called : List F

module _ {F : Type 0} where
  -- The condition of the loop, read again after doPendingFunctors.
  unfoldable pub next_round : EventLoop F → Phase F
  next_round e = if e.quit then stopped else polling

  pub data Step : System F → System F → Type 0 where
    poll_returns :
        {e : EventLoop F} {n : ℕ} {q c : List F}
        → Step
            (record { loop = e; phase = polling; waking = n; queued = q; called = c })
            (record { loop = e; phase = dispatching; waking = n; queued = q; called = c })
    wakeup_read :
        {e : EventLoop F} {n : ℕ} {q c : List F}
        → Step
            (record { loop = e; phase = dispatching; waking = n; queued = q; called = c })
            (record {
              loop = handle_wakeup_read e;
              phase = dispatching;
              waking = n;
              queued = q;
              called = c;
            })
    queued_by_handler :
        {e : EventLoop F} {n : ℕ} {q c : List F} (cb : F)
        → Step
            (record { loop = e; phase = dispatching; waking = n; queued = q; called = c })
            (record {
              loop = queue_in_loop true cb e;
              phase = dispatching;
              waking = n;
              queued = q ++ (cb ∷ []);
              called = c;
            })
    queued_by_functor :
        {e : EventLoop F} {n : ℕ} {q c fs : List F} (cb : F)
        → Step
            (record { loop = e; phase = running fs; waking = n; queued = q; called = c })
            (record {
              loop = queue_in_loop true cb e;
              phase = running fs;
              waking = n;
              queued = q ++ (cb ∷ []);
              called = c;
            })
    quit_by_handler :
        {e : EventLoop F} {n : ℕ} {q c : List F}
        → Step
            (record { loop = e; phase = dispatching; waking = n; queued = q; called = c })
            (record { loop = set_quit e; phase = dispatching; waking = n; queued = q; called = c })
    quit_by_functor :
        {e : EventLoop F} {n : ℕ} {q c fs : List F}
        → Step
            (record { loop = e; phase = running fs; waking = n; queued = q; called = c })
            (record { loop = set_quit e; phase = running fs; waking = n; queued = q; called = c })
    pending_taken :
        {e : EventLoop F} {n : ℕ} {q c : List F}
        → Step
            (record { loop = e; phase = dispatching; waking = n; queued = q; called = c })
            (record {
              loop = (take_pending e).1;
              phase = running (take_pending e).0;
              waking = n;
              queued = q;
              called = c;
            })
    functor_called :
        {e : EventLoop F} {n : ℕ} {q c fs : List F} (f : F)
        → Step
            (record { loop = e; phase = running (f ∷ fs); waking = n; queued = q; called = c })
            (record {
              loop = e;
              phase = running fs;
              waking = n;
              queued = q;
              called = c ++ (f ∷ []);
            })
    round_ends :
        {e : EventLoop F} {n : ℕ} {q c : List F}
        → Step
            (record { loop = e; phase = running []; waking = n; queued = q; called = c })
            (record {
              loop = end_pending e;
              phase = next_round e;
              waking = n;
              queued = q;
              called = c;
            })
    queued_elsewhere :
        {e : EventLoop F} {p : Phase F} {n : ℕ} {q c : List F} (cb : F)
        → Step
            (record { loop = e; phase = p; waking = n; queued = q; called = c })
            (record {
              loop = push_functor cb e;
              phase = p;
              waking = suc n;
              queued = q ++ (cb ∷ []);
              called = c;
            })
    quit_elsewhere :
        {e : EventLoop F} {p : Phase F} {n : ℕ} {q c : List F}
        → Step
            (record { loop = e; phase = p; waking = n; queued = q; called = c })
            (record { loop = set_quit e; phase = p; waking = suc n; queued = q; called = c })
    wakeup_elsewhere :
        {e : EventLoop F} {p : Phase F} {n : ℕ} {q c : List F}
        → Step
            (record { loop = e; phase = p; waking = suc n; queued = q; called = c })
            (record { loop = wakeup e; phase = p; waking = n; queued = q; called = c })

  pub data Steps : System F → System F → Type 0 where
    done : {s : System F} → Steps s s
    step : {s t u : System F} → Step s t → Steps t u → Steps s u
