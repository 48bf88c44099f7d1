-- ===== src/Net/Acceptor/Tests.antt =====
-- A connection, a process that is out of descriptors, and another connection.
use iot_distributed_gateway.Common.{◌+◌, List, [], ◌∷◌, true, none, some, ◌≡◌}
use iot_distributed_gateway.Net.Acceptor.{connection, too_many_files, new_acceptor}
use iot_distributed_gateway.Net.Acceptor.Descriptors.{
  Turn, life, held, obtained, released, released-obtained,
}

abbrev turns : List Turn
turns =
    record { first = connection 7; second = none; opened = none }
    ∷ record { first = too_many_files; second = some 4; opened = some 4 }
    ∷ record { first = connection 8; second = none; opened = none }
    ∷ []

released-obtained_example :
    released 4 (life turns (record (new_acceptor (some 4)) { has_callback = true }))
    ≡ held 4 (some 4) + obtained 4 turns
released-obtained_example = released-obtained 4 (some 4) true turns
