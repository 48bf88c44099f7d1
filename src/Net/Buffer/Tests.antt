-- ===== src/Net/Buffer/Tests.antt =====
-- Buffers at work, for the theorems about them.
use iot_distributed_gateway.Common.{ℕ, ◌≤◌, ◌≢◌, [], ◌∷◌, arith, length}
use iot_distributed_gateway.Net.Buffer.{Buffer, IsValid, new, append, make_space}

-- Room for two bytes.
abbrev small : Buffer
small = new 2

fits : length {A = ℕ} (7 ∷ 8 ∷ []) ≤ small.reader_index
unfolding new
fits = omega arith

abbrev three : Buffer
three = record {
  buffer = 0 ∷ 0 ∷ 0 ∷ 0 ∷ 0 ∷ 0 ∷ 0 ∷ 0 ∷ 0 ∷ 0 ∷ 4 ∷ 5 ∷ 6 ∷ [];
  reader_index = 10;
  writer_index = 13;
}

three-IsValid : IsValid three
three-IsValid = record { ordered = omega arith; inside = omega arith; reserved = omega arith }

moved : (make_space 2 three).reader_index ≢ 10
unfolding make_space
moved = ground arith

abbrev line : Buffer
line = append (71 ∷ 13 ∷ 10 ∷ 72 ∷ []) small
