-- ===== src/Net/Acceptor.antt =====
-- src/net/Acceptor.h, src/net/Acceptor.cpp and Socket::accept in src/net/Socket.cpp: descriptors. What the
-- system answers is an argument, with `none` for -1. Logging does not change errno.
pub mod Descriptors
mod Tests
use iot_distributed_gateway.Common.{ℕ, List, [], ◌∷◌, Bool, true, false, Option, none, some}

-- What accept comes to: a connection, EMFILE, or another error.
pub data Accepted : Type 0 where
  connection : ℕ → Accepted
  too_many_files other_error : Accepted

pub record Acceptor : Type 0 where
  pub has_callback : Bool
  pub listening : Bool
  pub idle_fd : Option ℕ

-- The events that the accepting channel waits for and the calls of close and of newConnectionCallback.
pub data Action : Type 0 where
  listens enables_reading disables_all removes_channel : Action
  hands_over : ℕ → Action
  closes : Option ℕ → Action

-- What open answers for /dev/null.
unfoldable pub new_acceptor : Option ℕ → Acceptor
new_acceptor opened = record { has_callback = false; listening = false; idle_fd = opened }

unfoldable pub set_new_connection_callback : Acceptor → Acceptor
set_new_connection_callback a = record a { has_callback = true }

unfoldable pub listen : Acceptor → Acceptor × List Action
listen a = (record a { listening = true }, listens ∷ enables_reading ∷ [])

abbrev pub given : Bool → ℕ → List Action
given true fd = hands_over fd ∷ []
given false fd = closes (some fd) ∷ []

-- `second` is the answer of the second accept, `opened` that of open.
unfoldable pub handle_read : Accepted → Option ℕ → Option ℕ → Acceptor → Acceptor × List Action
handle_read (connection fd) second opened a = (a, given a.has_callback fd)
handle_read too_many_files second opened a =
    (record a { idle_fd = opened }, closes a.idle_fd ∷ closes second ∷ [])
handle_read other_error second opened a = (a, [])

abbrev pub close_idle : Option ℕ → List Action
close_idle none = []
close_idle (some fd) = closes (some fd) ∷ []

unfoldable pub destroy_acceptor : Acceptor → List Action
destroy_acceptor a = disables_all ∷ removes_channel ∷ close_idle a.idle_fd
