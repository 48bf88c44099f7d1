-- ===== src/Net/Server/Calls.antt =====
-- src/net/TcpServer.cpp: calls of newConnection and removeConnectionInLoop, and what they log.
use iot_distributed_gateway.Common.{
  ℕ, ◌+◌, ◌≤◌, ◌<◌, ◌≡◌, Bytes, bytes_eq, List, [], ◌∷◌, ◌++◌, Bool, true, false, Option, none,
  some, beq, length,
}
use iot_distributed_gateway.Common.Dict.{lookup}
use iot_distributed_gateway.Common.Decimal.{int32_half}
use iot_distributed_gateway.Net.Pool.{EventLoopThreadPool}
use iot_distributed_gateway.Net.Pool.RoundRobin.{IsValid}
use iot_distributed_gateway.Net.Server.{
  TcpConnection, TcpServer, Effect, listens, establishes, destroys, connection_name, new_connection,
  remove_connection_in_loop,
}
use Prim.{Unit}

pub data Call (L : Type 0) : Type 0 where
  accepts : ℕ → Call L
  removes : TcpConnection L → Call L

-- A server, and the effects of the calls so far.
abbrev pub Logged : Type 0 → Type 0
Logged L = TcpServer L × List (Effect L)

abbrev pub one_if : Bool → ℕ
one_if false = 0
one_if true = 1

module _ {L : Type 0} where
  abbrev pub perform : Call L → TcpServer L → Option (Logged L)
  perform (accepts sockfd) s = new_connection sockfd s
  perform (removes conn) s = some (remove_connection_in_loop conn s)

  abbrev pub logged : List (Effect L) → Option (Logged L) → Option (Logged L)
  logged log none = none
  logged log (some (s, effects)) = some (s, log ++ effects)

  abbrev pub step : Call L → Logged L → Option (Logged L)
  step call t = logged t.1 (perform call t.0)

  abbrev pub continue : (Logged L → Option (Logged L)) → Option (Logged L) → Option (Logged L)
  continue more none = none
  continue more (some t) = more t

  unfoldable pub perform_all : List (Call L) → Logged L → Option (Logged L)
  perform_all [] t = some t
  perform_all (call ∷ calls) t = continue (perform_all calls) (step call t)

  -- How often a connection of that name was established, and how often it was destroyed.
  unfoldable pub established : Bytes → List (Effect L) → ℕ
  established n [] = 0
  established n (listens ∷ log) = established n log
  established n (establishes c ∷ log) = one_if (beq c.name n) + established n log
  established n (destroys c ∷ log) = established n log

  unfoldable pub destroyed : Bytes → List (Effect L) → ℕ
  destroyed n [] = 0
  destroyed n (listens ∷ log) = destroyed n log
  destroyed n (establishes c ∷ log) = destroyed n log
  destroyed n (destroys c ∷ log) = one_if (beq c.name n) + destroyed n log

  abbrev pub known : Option (TcpConnection L) → ℕ
  known none = 0
  known (some c) = 1

  unfoldable pub in_table : Bytes → TcpServer L → ℕ
  in_table n s = known (lookup n s.connections)

  -- Each connection is established once at most, and is in the table or destroyed, once.
  abbrev pub IsBalanced : Bytes → Logged L → Type 0
  IsBalanced n t = (established n t.1 ≡ destroyed n t.1 + in_table n t.0) × (established n t.1 ≤ 1)

  -- The pool has a next loop.
  abbrev pub HasLoop : Option (EventLoopThreadPool L) → Type 0
  HasLoop none = Unit {0}
  HasLoop (some pool) = IsValid pool

  -- The pool has a next loop, the address leaves room for the number in a name, no name of a number
  -- to come was established, and all is balanced.
  pub record IsSound (t : Logged L) : Type 0 where
    pub has_loop : HasLoop t.0.thread_pool
    pub short : length t.0.ip_port ≤ 52
    pub fresh :
        (id : ℕ)
        → t.0.next_conn_id ≤ id
        → id < int32_half
        → established (connection_name t.0.ip_port id) t.1 ≡ 0
    pub balanced : (n : Bytes) → IsBalanced n t
