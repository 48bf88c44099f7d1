-- ===== src/Net/Pool/RoundRobin.antt =====
-- src/net/EventLoopThreadPool.cpp: getNextLoop called again and again.
use iot_distributed_gateway.Common.{
  ℕ, zero, suc, ◌+◌, ◌≤◌, ◌<◌, List, [], ◌∷◌, ◌++◌, leb, length, take, drop, drop_all, Bool, false,
  true, ◌-◌, some, ◌≡◌, refl, sym, subst, ◌∙◌, arith, Bool-cases, inl, inr,
}
use iot_distributed_gateway.Net.Pool.{
  EventLoopThreadPool, create, start, get_elem?, advance, get_next_loop, get_all_loops, all_of,
  Assigned, none_left, assigned,
}

module _ {L : Type 0} where
  -- The index stands at a loop, or at 0 where there is none.
  unfoldable pub IsValid : EventLoopThreadPool L → Type 0
  IsValid pool = pool.next < length (get_all_loops pool)

  get_elem?-drop :
      (i : ℕ) (xs : List L) (x : L) (rest : List L) → drop i xs ≡ x ∷ rest → get_elem? xs i ≡ some x
  get_elem?-drop zero [] x rest e = absurd (ground arith)
  get_elem?-drop zero (y ∷ xs) x rest e = ground arith
  get_elem?-drop (suc i) [] x rest e = absurd (ground arith)
  get_elem?-drop (suc i) (y ∷ xs) x rest e = get_elem?-drop i xs x rest e

  drop_next :
      (i : ℕ) (xs : List L) (x : L) (rest : List L) → drop i xs ≡ x ∷ rest → drop (suc i) xs ≡ rest
  drop_next zero [] x rest e = absurd (ground arith)
  drop_next zero (y ∷ xs) x rest e = ground arith
  drop_next (suc i) [] x rest e = absurd (ground arith)
  drop_next (suc i) (y ∷ xs) x rest e = drop_next i xs x rest e

  drop-cases :
      (i : ℕ) (xs : List L) → i < length xs → (x : L) × (rest : List L) × (drop i xs ≡ x ∷ rest)
  drop-cases i [] h = absurd (omega arith)
  drop-cases zero (x ∷ xs) h = (x, xs, refl)
  drop-cases (suc i) (x ∷ xs) h = drop-cases i xs (omega arith)

  append-Assigned :
      {p q r : EventLoopThreadPool L} {xs ys : List L}
      → Assigned p xs q
      → Assigned q ys r
      → Assigned p (xs ++ ys) r
  append-Assigned none_left b = b
  append-Assigned (assigned e a) b = assigned e (append-Assigned a b)

module _ {L : Type 0} (base : L) (on : Bool) (first : L) (others : List L) where
  abbrev at : ℕ → EventLoopThreadPool L
  at i = record { base_loop = base; started = on; next = i; loops = first ∷ others }

  abbrev all : List L
  all = first ∷ others

  get_next_loop_lem :
      (i : ℕ) (x : L) (rest : List L)
      → drop i all ≡ x ∷ rest
      → get_next_loop (at i) ≡ some (x, at (advance i (length all)))
  unfolding get_next_loop
  get_next_loop_lem i x rest e = rw (get_elem?-drop i all x rest e) refl

  step_on :
      (i : ℕ) (x : L) (rest : List L)
      → drop i all ≡ x ∷ rest
      → suc i < length all
      → get_next_loop (at i) ≡ some (x, at (suc i))
  unfolding advance
  step_on i x rest e h =
      let room : leb (length all) (suc i) ≡ false = ground arith in
      get_next_loop_lem i x rest e ∙ rw room refl

  wrap :
      (i : ℕ) (x : L) (rest : List L)
      → drop i all ≡ x ∷ rest
      → length all ≤ suc i
      → get_next_loop (at i) ≡ some (x, at 0)
  unfolding advance
  wrap i x rest e h =
      let full : leb (length all) (suc i) ≡ true = ground arith in
      get_next_loop_lem i x rest e ∙ rw full refl

  -- The loops from the first one on.
  from_start : (m i : ℕ) → i + m < length all → Assigned (at i) (take m (drop i all)) (at (i + m))
  from_start zero i h =
      subst (λ (k : ℕ). Assigned (at i) [] (at k)) (let e : i ≡ i + 0 = omega arith in e) none_left
  from_start (suc m) i h =
      let (x, rest, e) = drop-cases i all (omega arith) in
      let k : suc i + m ≡ i + suc m = omega arith in
      rw e (
        assigned (step_on i x rest e (omega arith)) (
          subst (λ (l : List L). Assigned (at (suc i)) (take m l) (at (i + suc m)))
            (drop_next i all x rest e)
            (subst (λ (j : ℕ). Assigned (at (suc i)) (take m (drop (suc i) all)) (at j)) k
              (from_start m (suc i) (omega arith)))))

  -- The loops to the last one.
  to_end : (m i : ℕ) → i + suc m ≡ length all → Assigned (at i) (drop i all) (at 0)
  to_end zero i h =
      let (x, rest, e) = drop-cases i all (omega arith) in
      let over : rest ≡ [] = sym (drop_next i all x rest e) ∙ drop_all (suc i) all (omega arith) in
      rw (e, over) (assigned (wrap i x rest e (omega arith)) none_left)
  to_end (suc m) i h =
      let (x, rest, e) = drop-cases i all (omega arith) in
      rw e (
        assigned (step_on i x rest e (omega arith)) (
          subst (λ (l : List L). Assigned (at (suc i)) l (at 0)) (drop_next i all x rest e)
            (to_end m (suc i) (omega arith))))

  a_round : (i : ℕ) → i < length all → Assigned (at i) (drop i all ++ take i all) (at i)
  a_round i h = append-Assigned (to_end (length all - suc i) i (omega arith)) (
      subst (λ (k : ℕ). Assigned (at 0) (take i all) (at k)) (let e : 0 + i ≡ i = omega arith in e)
        (from_start i 0 (omega arith)))

  turn :
      (i : ℕ)
      → i < length all
      → (loop : L) × (pool : EventLoopThreadPool L) × (get_next_loop (at i) ≡ some (loop, pool))
        × IsValid pool
  unfolding IsValid get_all_loops
  turn i h =
      let (x, rest, e) = drop-cases i all h in
      elim (Bool-cases (leb (length all) (suc i))) [
        | inl full ↦ (x, at 0, wrap i x rest e (ground arith), omega arith)
        | inr room ↦ (x, at (suc i), step_on i x rest e (ground arith), ground arith)
      ]

module _ {L : Type 0} where
  turn_of :
      (base : L) (on : Bool) (i : ℕ) (loops : List L)
      → i < length (all_of loops base)
      → (loop : L) × (pool : EventLoopThreadPool L) × (get_next_loop
            (record { base_loop = base; started = on; next = i; loops = loops })
          ≡ some (loop, pool))
        × IsValid pool
  unfolding get_next_loop IsValid get_all_loops
  turn_of base on i [] h =
      (base, record { base_loop = base; started = on; next = i; loops = [] }, refl, h)
  turn_of base on i (x ∷ xs) h = turn base on x xs i h

  -- A valid pool has a loop for the next connection, and stays valid.
  pub get_next_loop-IsValid :
      (pool : EventLoopThreadPool L)
      → IsValid pool
      → (loop : L) × (pool' : EventLoopThreadPool L) × (get_next_loop pool ≡ some (loop, pool'))
        × IsValid pool'
  unfolding IsValid get_all_loops
  get_next_loop-IsValid pool h = turn_of pool.base_loop pool.started pool.next pool.loops h

  round-Assigned :
      (base : L) (on : Bool) (i : ℕ) (loops : List L)
      → i < length (all_of loops base)
      → Assigned
          (record { base_loop = base; started = on; next = i; loops = loops })
          (drop i (all_of loops base) ++ take i (all_of loops base))
          (record { base_loop = base; started = on; next = i; loops = loops })
  unfolding get_next_loop
  round-Assigned base on zero [] h = assigned refl none_left
  round-Assigned base on (suc i) [] h = absurd (omega arith)
  round-Assigned base on i (x ∷ xs) h = a_round base on x xs i h

  -- Starting a new pool succeeds and makes it valid.
  pub start-IsValid :
      (base : L) (loops : List L)
      → (pool : EventLoopThreadPool L) × (start loops (create base) ≡ some pool) × IsValid pool
  unfolding start create IsValid get_all_loops
  start-IsValid base [] = (_, refl, omega arith)
  start-IsValid base (x ∷ xs) = (_, refl, omega arith)

  -- As many calls of getNextLoop as a valid pool has loops answer each of getAllLoops once, in their
  -- order from the index on and then from the front, never index out of range, and leave the pool as it
  -- was.
  pub get_all_loops-Assigned :
      (pool : EventLoopThreadPool L)
      → IsValid pool
      → Assigned pool
          (drop pool.next (get_all_loops pool) ++ take pool.next (get_all_loops pool))
          pool
  unfolding IsValid get_all_loops
  get_all_loops-Assigned pool h = round-Assigned pool.base_loop pool.started pool.next pool.loops h
