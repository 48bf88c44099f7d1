-- ===== src/Storage/Tsdb/Tests.antt =====
-- A new client, for the theorems about the time series client.
use iot_distributed_gateway.Common.{List, [], ◌∷◌, ◌++◌, ◌≡◌, All, arith}
use iot_distributed_gateway.Common.Text.{ascii}
use iot_distributed_gateway.Storage.Tsdb.{create}
use iot_distributed_gateway.Storage.Tsdb.Batch.{
  connects, writes, flushes, perform_all, perform_all-Fine, concat, lines_of, IsSmall, IsPost, Call,
}

create-IsSmall : IsSmall create
unfolding create
create-IsSmall = record { few = omega arith; short = omega arith }

abbrev calls : List Call
calls =
    connects
    ∷ writes 5 (ascii "d1") (ascii "/t") (ascii "23.5")
    ∷ flushes
    ∷ writes 6 (ascii "d1") (ascii "/t") (ascii "24")
    ∷ []

perform_all-Fine_example :
    (concat (perform_all calls create).1 ++ (perform_all calls create).0.batch_buffer
      ≡ create.batch_buffer ++ lines_of calls create.connected)
    × IsSmall (perform_all calls create).0
    × All IsPost (perform_all calls create).1
perform_all-Fine_example = perform_all-Fine calls create create-IsSmall
