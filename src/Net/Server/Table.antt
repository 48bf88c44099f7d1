-- ===== src/Net/Server/Table.antt =====
-- src/net/TcpServer.cpp: newConnection and removeConnectionInLoop called again and again.
use iot_distributed_gateway.Common.{
  ℕ, suc, ◌+◌, ◌-◌, ◌≤◌, ◌<◌, ◌≡◌, refl, sym, subst, append-nil, Bytes, bytes_test_iff, bytes_eq,
  List, [], ◌∷◌, ◌++◌, false, Option, some, leb, beq, length, Bool-cases, Option-cases, inl, inr,
  arith,
}
use iot_distributed_gateway.Common.Dict.{lookup, erase, lookup-erase}
use iot_distributed_gateway.Common.Decimal.{int32_half}
use iot_distributed_gateway.Net.Pool.{EventLoopThreadPool}
use iot_distributed_gateway.Net.Pool.RoundRobin.{start-IsValid}
use iot_distributed_gateway.Net.Server.{
  TcpConnection, TcpServer, Effect, listens, destroys, connection_name, new_connection,
  remove_connection_in_loop, new_server, set_thread_num, start_server, add_connection,
}
use iot_distributed_gateway.Net.Server.Calls.{
  Call, accepts, removes, Logged, perform, logged, perform_all, established, destroyed, known,
  in_table, IsBalanced, HasLoop, IsSound,
}
use iot_distributed_gateway.Net.Server.Balance.{
  established-append, destroyed-append, io_loop-HasLoop, added_balance, added_fresh,
}

module _ {L : Type 0} where
  add_connection-IsSound :
      (fd : ℕ) (s : TcpServer L) (log : List (Effect L)) (l : L)
      (pool : Option (EventLoopThreadPool L))
      → HasLoop pool
      → suc s.next_conn_id < int32_half
      → IsSound (s, log)
      → IsSound ((add_connection fd s (l, pool)).0, log ++ (add_connection fd s (l, pool)).1)
  unfolding in_table
  add_connection-IsSound fd s log l pool v small h =
      let name : Bytes = connection_name s.ip_port s.next_conn_id in
      let conn : TcpConnection L = record { loop = l; name = name; sockfd = fd } in
      record {
        has_loop = v;
        short = h.short;
        fresh = λ id le lt.
            added_fresh s.ip_port s.next_conn_id fd id l log h.short le lt
              (h.fresh id (omega arith) lt);
        balanced = λ n.
            added_balance conn n log s.connections
              (λ e.
                subst (λ x. established x log ≡ 0) e
                  (h.fresh s.next_conn_id (omega arith) (omega arith)))
              (h.balanced n).0 (h.balanced n).1;
      }

  new_connection-IsSound :
      (fd : ℕ) (s : TcpServer L) (log : List (Effect L))
      → suc s.next_conn_id < int32_half
      → IsSound (s, log)
      → (t : Logged L) × (logged log (new_connection fd s) ≡ some t)
        × IsSound t
        × (t.0.next_conn_id ≡ suc s.next_conn_id)
  unfolding new_connection
  new_connection-IsSound fd s log small h =
      let (l, pool, e, v) = io_loop-HasLoop s.loop s.thread_pool h.has_loop in
      let room : leb (int32_half - 1) s.next_conn_id ≡ false = ground arith in
      (
        ((add_connection fd s (l, pool)).0, log ++ (add_connection fd s (l, pool)).1),
        rw (room, e) refl,
        add_connection-IsSound fd s log l pool v small h,
        refl,
      )

  removed_balance :
      (c k : TcpConnection L) (n : Bytes) (log : List (Effect L))
      (m : List (Bytes × TcpConnection L))
      → lookup c.name m ≡ some k
      → established n log ≡ destroyed n log + known (lookup n m)
      → established n log ≤ 1
      → (established n (log ++ (destroys c ∷ []))
          ≡ destroyed n (log ++ (destroys c ∷ [])) + known (lookup n (erase c.name m)))
        × (established n (log ++ (destroys c ∷ [])) ≤ 1)
  unfolding established destroyed
  removed_balance c k n log m found e b =
      rw
        (
          established-append n log (destroys c ∷ []),
          destroyed-append n log (destroys c ∷ []),
          lookup-erase c.name n m,
        )
        (elim (Bool-cases (beq c.name n)) [
          | inl same ↦
              let was : lookup n m ≡ some k =
                subst (λ x. lookup x m ≡ some k) ((bytes_test_iff c.name n).0 same) found in
              let one : known (lookup n m) ≡ 1 = rw was refl in rw same (omega arith, omega arith)
          | inr other ↦ rw other (omega arith, omega arith)
        ])

  destroyed_fresh :
      (c : TcpConnection L) (n : Bytes) (log : List (Effect L))
      → established n log ≡ 0
      → established n (log ++ (destroys c ∷ [])) ≡ 0
  unfolding established
  destroyed_fresh c n log e = rw (established-append n log (destroys c ∷ []), e) refl

  remove-IsSound :
      (conn : TcpConnection L) (s : TcpServer L) (log : List (Effect L))
      → IsSound (s, log)
      → IsSound ((remove_connection_in_loop conn s).0, log ++ (remove_connection_in_loop conn s).1)
  unfolding remove_connection_in_loop in_table
  remove-IsSound conn s log h = elim (Option-cases (lookup conn.name s.connections)) [
    | inl missing ↦ rw missing (subst (λ es. IsSound (s, es)) (sym (append-nil log)) h)
    | inr (k, found) ↦ rw found (record {
      has_loop = h.has_loop;
      short = h.short;
      fresh =
          λ id le lt. destroyed_fresh conn (connection_name s.ip_port id) log (h.fresh id le lt);
      balanced =
          λ n. removed_balance conn k n log s.connections found (h.balanced n).0 (h.balanced n).1;
    })
  ]

  remove_connection-next :
      (conn : TcpConnection L) (s : TcpServer L)
      → (remove_connection_in_loop conn s).0.next_conn_id ≡ s.next_conn_id
  unfolding remove_connection_in_loop
  remove_connection-next conn s = elim (Option-cases (lookup conn.name s.connections)) [
    | inl missing ↦ rw missing refl
    | inr (k, found) ↦ rw found refl
  ]

  step-IsSound :
      (call : Call L) (s : TcpServer L) (log : List (Effect L))
      → suc s.next_conn_id < int32_half
      → IsSound (s, log)
      → (t : Logged L) × (logged log (perform call s) ≡ some t)
        × IsSound t
        × (t.0.next_conn_id ≤ suc s.next_conn_id)
  step-IsSound (accepts fd) s log small h =
      let (t, e, sound, next) = new_connection-IsSound fd s log small h in
      (t, e, sound, omega arith)
  step-IsSound (removes conn) s log small h =
      (_, refl, remove-IsSound conn s log h, omega (arith, remove_connection-next conn s))

  perform_all-IsSound :
      (calls : List (Call L)) (s : TcpServer L) (log : List (Effect L))
      → s.next_conn_id + length calls < int32_half
      → IsSound (s, log)
      → (t : Logged L) × (perform_all calls (s, log) ≡ some t) × IsSound t
  unfolding perform_all
  perform_all-IsSound [] s log small h = ((s, log), refl, h)
  perform_all-IsSound (call ∷ calls) s log small h =
      let ((s', log'), e, sound, next) = step-IsSound call s log (omega arith) h in
      let (t, e', sound') = perform_all-IsSound calls s' log' (omega arith) sound in
      (t, rw e e', sound')

  -- A new server with threads that were started is sound, and nothing has happened to it.
  new_server-IsSound :
      (loop : L) (loops : List L) (ip_port : Bytes)
      → length ip_port ≤ 52
      → (s : TcpServer L) × (start_server loops false (set_thread_num (new_server loop ip_port))
          ≡ some (s, listens ∷ []))
        × IsSound (s, [])
        × (s.next_conn_id ≡ 1)
  unfolding start_server set_thread_num new_server in_table established destroyed lookup
  new_server-IsSound loop loops ip_port short =
      let (pool, e, v) = start-IsValid loop loops in
      (
        record (new_server loop ip_port) { thread_pool = some pool; started = 1 },
        rw e refl,
        record {
          has_loop = v;
          short = short;
          fresh = λ id le lt. refl;
          balanced = λ n. (refl, omega arith);
        },
        refl,
      )

  -- A new server whose address has at most 52 bytes and whose threads were started runs any calls of
  -- newConnection and of removeConnectionInLoop, in any order and for whatever connections, to their end
  -- where there are fewer than 2147483647 of them: a loop is found for each connection. Afterwards, of each
  -- name, at most one connection was established, and it is in the table and not destroyed, or it is not
  -- in the table and its destruction was queued once.
  pub perform_all-IsBalanced :
      (loop : L) (loops : List L) (ip_port : Bytes) (calls : List (Call L))
      → length ip_port ≤ 52
      → suc (length calls) < int32_half
      → (s : TcpServer L) × (t : Logged L) × (start_server loops false
            (set_thread_num (new_server loop ip_port))
          ≡ some (s, listens ∷ []))
        × (perform_all calls (s, []) ≡ some t)
        × ((n : Bytes) → IsBalanced n t)
  perform_all-IsBalanced loop loops ip_port calls short few =
      let (s, e, sound, first) = new_server-IsSound loop loops ip_port short in
      let (t, e', sound') = perform_all-IsSound calls s [] (omega arith) sound in
      (s, t, e, e', sound'.balanced)
