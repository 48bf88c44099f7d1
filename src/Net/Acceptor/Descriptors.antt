-- ===== src/Net/Acceptor/Descriptors.antt =====
-- src/net/Acceptor.cpp: every descriptor that the acceptor gets is closed or handed over.
use iot_distributed_gateway.Common.{
  ℕ, ◌+◌, ◌==◌, List, [], ◌∷◌, ◌++◌, Bool, true, false, Option, none, some, ◌≡◌, refl, arith,
  if◌then◌else◌,
}
use iot_distributed_gateway.Net.Acceptor.{
  Accepted, connection, too_many_files, other_error, Acceptor, Action, listens, enables_reading,
  disables_all, removes_channel, hands_over, closes, new_acceptor, handle_read, destroy_acceptor,
  close_idle,
}

-- One turn of the accepting channel: what accept, the second accept and open answer. The last two are
-- only called after EMFILE.
pub record Turn : Type 0 where
  pub first : Accepted
  pub second : Option ℕ
  pub opened : Option ℕ

abbrev pub turn : Turn → Acceptor → Acceptor × List Action
turn t a = handle_read t.first t.second t.opened a

abbrev pub then_turns : (Acceptor → List Action) → Acceptor × List Action → List Action
then_turns more (a, actions) = actions ++ more a

-- The turns and then the destructor.
unfoldable pub life : List Turn → Acceptor → List Action
life [] a = destroy_acceptor a
life (t ∷ ts) a = then_turns (life ts) (turn t a)

abbrev one_of : ℕ → ℕ → ℕ
one_of fd other = if other == fd then 1 else 0

abbrev pub held : ℕ → Option ℕ → ℕ
held fd none = 0
held fd (some other) = one_of fd other

-- How often the system gave that descriptor in a turn.
abbrev pub given_in : ℕ → Accepted → Option ℕ → Option ℕ → ℕ
given_in fd (connection other) second opened = one_of fd other
given_in fd too_many_files second opened = held fd second + held fd opened
given_in fd other_error second opened = 0

unfoldable pub obtained : ℕ → List Turn → ℕ
obtained fd [] = 0
obtained fd (t ∷ ts) = given_in fd t.first t.second t.opened + obtained fd ts

-- How often that descriptor was closed or handed over.
abbrev pub released_by : ℕ → Action → ℕ
released_by fd listens = 0
released_by fd enables_reading = 0
released_by fd disables_all = 0
released_by fd removes_channel = 0
released_by fd (hands_over other) = one_of fd other
released_by fd (closes none) = 0
released_by fd (closes (some other)) = one_of fd other

unfoldable pub released : ℕ → List Action → ℕ
released fd [] = 0
released fd (a ∷ actions) = released_by fd a + released fd actions

released-append :
    (fd : ℕ) (xs ys : List Action) → released fd (xs ++ ys) ≡ released fd xs + released fd ys
unfolding released
released-append fd [] ys = omega arith
released-append fd (x ∷ xs) ys = omega (arith, released-append fd xs ys)

released_by-closes : (fd : ℕ) (o : Option ℕ) → released_by fd (closes o) ≡ held fd o
released_by-closes fd none = refl
released_by-closes fd (some other) = refl

-- A turn keeps the account of a descriptor.
turn_lem :
    (fd : ℕ) (first : Accepted) (second opened : Option ℕ) (has_callback listening : Bool)
    (idle : Option ℕ)
    → (let r =
          handle_read first second opened
            (record { has_callback = has_callback; listening = listening; idle_fd = idle }) in
        released fd r.1 + held fd r.0.idle_fd ≡ held fd idle + given_in fd first second opened)
unfolding handle_read released
turn_lem fd (connection other) second opened true listening idle = omega arith
turn_lem fd (connection other) second opened false listening idle = omega arith
turn_lem fd too_many_files second opened has_callback listening idle =
    omega (arith, released_by-closes fd idle, released_by-closes fd second)
turn_lem fd other_error second opened has_callback listening idle = omega arith

destroyed_lem : (fd : ℕ) (a : Acceptor) → released fd (destroy_acceptor a) ≡ held fd a.idle_fd
unfolding destroy_acceptor released
destroyed_lem fd a = go a.idle_fd
  where
    go : (o : Option ℕ) → released fd (disables_all ∷ removes_channel ∷ close_idle o) ≡ held fd o
    go none = refl
    go (some other) = omega arith

life_lem :
    (fd : ℕ) (ts : List Turn) (a : Acceptor)
    → released fd (life ts a) ≡ held fd a.idle_fd + obtained fd ts
unfolding life obtained
life_lem fd [] a = omega (arith, destroyed_lem fd a)
life_lem fd (t ∷ ts) a =
    let r = turn t a in
    omega (
      arith,
      released-append fd r.1 (life ts r.0),
      turn_lem fd t.first t.second t.opened a.has_callback a.listening a.idle_fd,
      life_lem fd ts r.0,
    )

-- From its constructor, over whatever readiness events and answers of the system, to its destructor the
-- acceptor closes or hands over each descriptor exactly as often as the system gave it: none leaks and
-- none is closed twice, also where accept fails for want of descriptors.
pub released-obtained :
    (fd : ℕ) (opened : Option ℕ) (callback : Bool) (ts : List Turn)
    → released fd (life ts (record (new_acceptor opened) { has_callback = callback }))
      ≡ held fd opened + obtained fd ts
unfolding new_acceptor
released-obtained fd opened callback ts =
    life_lem fd ts (record (new_acceptor opened) { has_callback = callback })
