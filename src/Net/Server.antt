-- ===== src/Net/Server.antt =====
-- src/net/TcpServer.h and src/net/TcpServer.cpp: the table of connections. A loop is a value of a type `L`,
-- a socket a number. What the server does to a connection is an effect, run or queued in the connection's
-- loop; `remove_connection_in_loop` is the closure that removeConnection hands to the server's loop.
pub mod Names
pub mod Calls
pub mod Balance
pub mod Table
mod Tests
use iot_distributed_gateway.Common.{
  ℕ, zero, suc, ◌+◌, ◌-◌, ◌==◌, Bytes, List, [], ◌∷◌, ◌++◌, Bool, true, false, Option, none, some,
  if◌then◌else◌, leb, take, bytes_eq,
}
use iot_distributed_gateway.Common.Dict.{insert, lookup, erase}
use iot_distributed_gateway.Common.Decimal.{int32_half, signed_string}
use iot_distributed_gateway.Net.Pool.{EventLoopThreadPool, create, start, get_next_loop}

pub record TcpConnection (L : Type 0) : Type 0 where
  pub loop : L
  pub name : Bytes
  pub sockfd : ℕ

pub record TcpServer (L : Type 0) : Type 0 where
  pub loop : L
  pub ip_port : Bytes
  pub thread_pool : Option (EventLoopThreadPool L)
  pub started : ℕ
  pub next_conn_id : ℕ
  pub connections : List (Bytes × TcpConnection L)

pub data Effect (L : Type 0) : Type 0 where
  listens : Effect L
  establishes : TcpConnection L → Effect L
  destroys : TcpConnection L → Effect L

-- The array of snprintf has 64 bytes, of which the last is the NUL.
unfoldable pub connection_name : Bytes → ℕ → Bytes
connection_name ip_port id = take 63 (ip_port ++ (35 ∷ signed_string int32_half id))

module _ {L : Type 0} where
  unfoldable pub new_server : L → Bytes → TcpServer L
  new_server loop ip_port = record {
    loop = loop;
    ip_port = ip_port;
    thread_pool = none;
    started = 0;
    next_conn_id = 1;
    connections = [];
  }

  -- The number of threads is that of the loops that `start_server` is given.
  unfoldable pub set_thread_num : TcpServer L → TcpServer L
  set_thread_num s = record s { thread_pool = some (create s.loop) }

  abbrev pub with_pool :
      Option (EventLoopThreadPool L) → TcpServer L → Option (TcpServer L × List (Effect L))
  with_pool none s = none
  with_pool (some pool) s = some (record s { thread_pool = some pool }, listens ∷ [])

  abbrev pub start_pool :
      List L → Option (EventLoopThreadPool L) → TcpServer L → Option (TcpServer L × List (Effect L))
  start_pool loops none s = some (s, listens ∷ [])
  start_pool loops (some pool) s = with_pool (start loops pool) s

  -- `none` is an assert that fails; `listening` is what the acceptor says.
  unfoldable pub start_server : List L → Bool → TcpServer L → Option (TcpServer L × List (Effect L))
  start_server loops listening s =
      let s' = record s { started = suc s.started } in
      if s.started == 0
      then if listening then none else start_pool loops s.thread_pool s'
      else some (s', [])

  abbrev pub next_of :
      Option (L × EventLoopThreadPool L) → Option (L × Option (EventLoopThreadPool L))
  next_of none = none
  next_of (some (io_loop, pool)) = some (io_loop, some pool)

  abbrev pub io_loop_of :
      L → Option (EventLoopThreadPool L) → Option (L × Option (EventLoopThreadPool L))
  io_loop_of loop none = some (loop, none)
  io_loop_of loop (some pool) = next_of (get_next_loop pool)

  abbrev pub add_connection :
      ℕ → TcpServer L → L × Option (EventLoopThreadPool L) → TcpServer L × List (Effect L)
  add_connection sockfd s (io_loop, pool) =
      let conn_name = connection_name s.ip_port s.next_conn_id in
      let conn : TcpConnection L = record { loop = io_loop; name = conn_name; sockfd = sockfd } in
      (
        record s {
          thread_pool = pool;
          next_conn_id = suc s.next_conn_id;
          connections = insert conn_name conn s.connections;
        },
        establishes conn ∷ [],
      )

  abbrev pub added :
      ℕ
      → TcpServer L
      → Option (L × Option (EventLoopThreadPool L))
      → Option (TcpServer L × List (Effect L))
  added sockfd s none = none
  added sockfd s (some choice) = some (add_connection sockfd s choice)

  -- `none` is the counter past the largest int, or an index that no loop has.
  unfoldable pub new_connection : ℕ → TcpServer L → Option (TcpServer L × List (Effect L))
  unfolding connection_name
  new_connection sockfd s =
      if leb (int32_half - 1) s.next_conn_id
      then none
      else added sockfd s (io_loop_of s.loop s.thread_pool)

  abbrev pub removed :
      Option (TcpConnection L) → TcpConnection L → TcpServer L → TcpServer L × List (Effect L)
  removed none conn s = (s, [])
  removed (some known) conn s =
      (record s { connections = erase conn.name s.connections }, destroys conn ∷ [])

  -- A key stands in the map at most once, so erase answers 1 where the name is known, and 0 elsewhere.
  unfoldable pub remove_connection_in_loop :
      TcpConnection L → TcpServer L → TcpServer L × List (Effect L)
  remove_connection_in_loop conn s = removed (lookup conn.name s.connections) conn s
