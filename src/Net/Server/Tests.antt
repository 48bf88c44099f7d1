-- ===== src/Net/Server/Tests.antt =====
-- Two connections, of which the first is removed twice.
use iot_distributed_gateway.Common.{ℕ, Bytes, List, [], ◌∷◌, false, some, ◌≡◌, arith}
use iot_distributed_gateway.Common.Text.{ascii}
use iot_distributed_gateway.Net.Server.{
  TcpConnection, TcpServer, listens, new_server, set_thread_num, start_server,
}
use iot_distributed_gateway.Net.Server.Calls.{
  Call, accepts, removes, Logged, perform_all, IsBalanced,
}
use iot_distributed_gateway.Net.Server.Table.{perform_all-IsBalanced}

abbrev first : TcpConnection ℕ
first = record { loop = 10; name = ascii "0.0.0.0:1883#1"; sockfd = 7 }

abbrev calls : List (Call ℕ)
calls = accepts 7 ∷ accepts 8 ∷ removes first ∷ removes first ∷ []

perform_all-IsBalanced_example :
    (s : TcpServer ℕ) × (t : Logged ℕ) × (start_server
        (10 ∷ 11 ∷ [])
        false
        (set_thread_num (new_server 9 (ascii "0.0.0.0:1883")))
      ≡ some (s, listens ∷ []))
    × (perform_all calls (s, []) ≡ some t)
    × ((n : Bytes) → IsBalanced n t)
perform_all-IsBalanced_example =
    perform_all-IsBalanced 9 (10 ∷ 11 ∷ []) (ascii "0.0.0.0:1883") calls (omega arith) (omega arith)
