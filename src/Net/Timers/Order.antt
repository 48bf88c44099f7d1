-- ===== src/Net/Timers/Order.antt =====
-- EventLoop's timers in src/net/EventLoop.cpp: the order of the entries, and which of them are due.
use iot_distributed_gateway.Common.{
  ℕ, ◌≤◌, ◌<◌, ◌≡◌, refl, ap, List, [], ◌∷◌, ◌++◌, leb, All, Bool-cases, inl, inr, arith,
}
use iot_distributed_gateway.Net.Timers.{Timer, emplace, collect}
use Prim.{Unit, tt}

module _ {F : Type 0} where
  abbrev pub NotBefore : ℕ → List (ℕ × Timer F) → Type 0
  NotBefore t = All (λ e. t ≤ e.0)

  -- The keys ascend.
  abbrev pub IsSorted : List (ℕ × Timer F) → Type 0
  IsSorted [] = Unit {0}
  IsSorted ((t, x) ∷ rest) = NotBefore t rest × IsSorted rest

  NotBefore-le : (t u : ℕ) (ts : List (ℕ × Timer F)) → t ≤ u → NotBefore u ts → NotBefore t ts
  NotBefore-le t u [] h a = tt
  NotBefore-le t u (e ∷ rest) h a = (omega (arith, a.0), NotBefore-le t u rest h a.1)

  NotBefore-emplace :
      (t u : ℕ) (x : Timer F) (ts : List (ℕ × Timer F))
      → u ≤ t
      → NotBefore u ts
      → NotBefore u (emplace t x ts)
  unfolding emplace
  NotBefore-emplace t u x [] h a = (h, tt)
  NotBefore-emplace t u x ((v, y) ∷ rest) h a = elim (Bool-cases (leb v t)) [
    | inl before ↦ rw before (a.0, NotBefore-emplace t u x rest h a.1)
    | inr behind ↦ rw behind (h, a)
  ]

  pub emplace-IsSorted :
      (t : ℕ) (x : Timer F) (ts : List (ℕ × Timer F)) → IsSorted ts → IsSorted (emplace t x ts)
  unfolding emplace
  emplace-IsSorted t x [] s = (tt, tt)
  emplace-IsSorted t x ((v, y) ∷ rest) s = elim (Bool-cases (leb v t)) [
    | inl before ↦
        let h : v ≤ t = ground arith in
        rw before (NotBefore-emplace t v x rest h s.0, emplace-IsSorted t x rest s.1)
    | inr behind ↦ let h : t ≤ v = ground arith in rw behind ((h, NotBefore-le t v rest h s.0), s)
  ]

  abbrev pub timers_of : List (ℕ × Timer F) → List (Timer F)
  timers_of [] = []
  timers_of ((t, x) ∷ rest) = x ∷ timers_of rest

  -- The entries fall into those that are due, which come first, and those that are not.
  abbrev pub Split : ℕ → List (ℕ × Timer F) → List (Timer F) × List (ℕ × Timer F) → Type 0
  Split now ts (due, left) =
      (front : List (ℕ × Timer F)) × (ts ≡ front ++ left)
      × (due ≡ timers_of front)
      × All (λ e. e.0 ≤ now) front
      × All (λ e. now < e.0) left
      × IsSorted left

  later : (now t : ℕ) (ts : List (ℕ × Timer F)) → now < t → NotBefore t ts → All (λ e. now < e.0) ts
  later now t [] h a = tt
  later now t (e ∷ rest) h a = (omega (arith, a.0), later now t rest h a.1)

  pub collect-Split :
      (now : ℕ) (ts : List (ℕ × Timer F)) → IsSorted ts → Split now ts (collect now ts)
  unfolding collect
  collect-Split now [] s = ([], refl, refl, tt, tt, tt)
  collect-Split now ((t, x) ∷ rest) s = elim (Bool-cases (leb t now)) [
    | inl due ↦
        let (front, e, d, a, b, c) = collect-Split now rest s.1 in
        rw due ((t, x) ∷ front, ap (◌∷◌ (t, x)) e, ap (◌∷◌ x) d, (ground arith, a), b, c)
    | inr ahead ↦
        let h : now < t = ground arith in
        rw ahead ([], refl, refl, tt, (h, later now t rest h s.0), s)
  ]
