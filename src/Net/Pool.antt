-- ===== src/Net/Pool.antt =====
-- src/net/EventLoopThreadPool.h and src/net/EventLoopThreadPool.cpp: which loop a connection goes to.
-- A loop is a value of a type `L`; the loops that the threads started are an argument of `start`.
pub mod RoundRobin
mod Tests
use iot_distributed_gateway.Common.{
  ℕ, zero, suc, List, [], ◌∷◌, Bool, true, false, if◌then◌else◌, leb, length, Option, none, some,
  ◌≡◌,
}

pub record EventLoopThreadPool (L : Type 0) : Type 0 where
  pub base_loop : L
  pub started : Bool
  pub next : ℕ
  pub loops : List L

unfoldable pub advance : ℕ → ℕ → ℕ
advance next size = if leb size (suc next) then 0 else suc next

module _ {L : Type 0} where
  -- `none` past the end, where the code's index is undefined.
  abbrev pub get_elem? : List L → ℕ → Option L
  get_elem? [] i = none
  get_elem? (x ∷ xs) zero = some x
  get_elem? (x ∷ xs) (suc i) = get_elem? xs i

  unfoldable pub create : L → EventLoopThreadPool L
  create base = record { base_loop = base; started = false; next = 0; loops = [] }

  -- `none` is the assert that a pool is started once.
  unfoldable pub start : List L → EventLoopThreadPool L → Option (EventLoopThreadPool L)
  start loops pool =
      if pool.started then none else some (record pool { started = true; loops = loops })

  abbrev pub chosen : Option L → EventLoopThreadPool L → Option (L × EventLoopThreadPool L)
  chosen none pool = none
  chosen (some loop) pool =
      some (loop, record pool { next = advance pool.next (length pool.loops) })

  abbrev pub pick : List L → EventLoopThreadPool L → Option (L × EventLoopThreadPool L)
  pick [] pool = some (pool.base_loop, pool)
  pick (x ∷ xs) pool = chosen (get_elem? (x ∷ xs) pool.next) pool

  unfoldable pub get_next_loop : EventLoopThreadPool L → Option (L × EventLoopThreadPool L)
  get_next_loop pool = pick pool.loops pool

  abbrev pub all_of : List L → L → List L
  all_of [] base = base ∷ []
  all_of (x ∷ xs) base = x ∷ xs

  unfoldable pub get_all_loops : EventLoopThreadPool L → List L
  get_all_loops pool = all_of pool.loops pool.base_loop

  -- Connections one after the other, and the loops that they go to.
  pub data Assigned : EventLoopThreadPool L → List L → EventLoopThreadPool L → Type 0 where
    none_left : {pool : EventLoopThreadPool L} → Assigned pool [] pool
    assigned :
        {pool pool' pool'' : EventLoopThreadPool L} {loop : L} {loops : List L}
        → get_next_loop pool ≡ some (loop, pool')
        → Assigned pool' loops pool''
        → Assigned pool (loop ∷ loops) pool''
