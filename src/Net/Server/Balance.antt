-- ===== src/Net/Server/Balance.antt =====
-- src/net/TcpServer.cpp: newConnection and removeConnectionInLoop, and the account of a name.
use iot_distributed_gateway.Common.{
  ℕ, suc, ◌+◌, ◌≤◌, ◌<◌, ◌≡◌, refl, Bytes, bytes_test_iff, bytes_eq, List, [], ◌∷◌, ◌++◌, Option,
  none, some, beq, length, Bool-cases, inl, inr, arith,
}
use iot_distributed_gateway.Common.Dict.{lookup, insert, lookup-insert}
use iot_distributed_gateway.Common.Decimal.{int32_half}
use iot_distributed_gateway.Net.Pool.{EventLoopThreadPool}
use iot_distributed_gateway.Net.Pool.RoundRobin.{get_next_loop-IsValid}
use iot_distributed_gateway.Net.Server.{
  TcpConnection, Effect, listens, establishes, destroys, connection_name, io_loop_of,
}
use iot_distributed_gateway.Net.Server.Names.{connection_name-inj}
use Prim.{tt}
use iot_distributed_gateway.Net.Server.Calls.{established, destroyed, known, HasLoop}

module _ {L : Type 0} where
  pub established-append :
      (n : Bytes) (a b : List (Effect L))
      → established n (a ++ b) ≡ established n a + established n b
  unfolding established
  established-append n [] b = omega arith
  established-append n (listens ∷ a) b = established-append n a b
  established-append n (establishes c ∷ a) b = omega (arith, established-append n a b)
  established-append n (destroys c ∷ a) b = established-append n a b

  pub destroyed-append :
      (n : Bytes) (a b : List (Effect L)) → destroyed n (a ++ b) ≡ destroyed n a + destroyed n b
  unfolding destroyed
  destroyed-append n [] b = omega arith
  destroyed-append n (listens ∷ a) b = destroyed-append n a b
  destroyed-append n (establishes c ∷ a) b = destroyed-append n a b
  destroyed-append n (destroys c ∷ a) b = omega (arith, destroyed-append n a b)

  pub io_loop-HasLoop :
      (loop : L) (pool : Option (EventLoopThreadPool L))
      → HasLoop pool
      → (l : L) × (pool' : Option (EventLoopThreadPool L)) × (io_loop_of loop pool
          ≡ some (l, pool'))
        × HasLoop pool'
  io_loop-HasLoop loop none h = (loop, none, refl, tt)
  io_loop-HasLoop loop (some pool) h =
      let (l, pool', e, v) = get_next_loop-IsValid pool h in (l, some pool', rw e refl, v)

  -- The balance of one name when a connection is added to a log that has none of that name, or
  -- when it has another name.
  pub added_balance :
      (c : TcpConnection L) (n : Bytes) (log : List (Effect L)) (m : List (Bytes × TcpConnection L))
      → (c.name ≡ n → established n log ≡ 0)
      → established n log ≡ destroyed n log + known (lookup n m)
      → established n log ≤ 1
      → (established n (log ++ (establishes c ∷ []))
          ≡ destroyed n (log ++ (establishes c ∷ [])) + known (lookup n (insert c.name c m)))
        × (established n (log ++ (establishes c ∷ [])) ≤ 1)
  unfolding established destroyed
  added_balance c n log m f e b =
      rw
        (
          established-append n log (establishes c ∷ []),
          destroyed-append n log (establishes c ∷ []),
          lookup-insert c.name n c m,
        )
        (elim (Bool-cases (beq c.name n)) [
          | inl same ↦
              let zero_before = f ((bytes_test_iff c.name n).0 same) in
              rw same (omega arith, omega arith)
          | inr other ↦ rw other (omega arith, omega arith)
        ])

  pub added_fresh :
      (ip : Bytes) (next fd id : ℕ) (l : L) (log : List (Effect L))
      → length ip ≤ 52
      → suc next ≤ id
      → id < int32_half
      → established (connection_name ip id) log ≡ 0
      → established (connection_name ip id) (
          log
          ++ (establishes (record { loop = l; name = connection_name ip next; sockfd = fd }) ∷ []))
        ≡ 0
  unfolding established
  added_fresh ip next fd id l log short le lt e =
      rw
        (
          established-append (connection_name ip id) log
              (establishes (record { loop = l; name = connection_name ip next; sockfd = fd }) ∷ []),
          e,
        )
        (elim (Bool-cases (beq (connection_name ip next) (connection_name ip id))) [
          | inl same ↦
              let e : next ≡ id =
                connection_name-inj ip next id short (omega arith) lt
                  ((bytes_test_iff (connection_name ip next) (connection_name ip id)).0 same) in
              absurd (omega arith)
          | inr other ↦ rw other refl
        ])
