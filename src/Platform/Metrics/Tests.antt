-- ===== src/Platform/Metrics/Tests.antt =====
-- Metrics over the natural numbers, for the theorems about them.
use iot_distributed_gateway.Common.{ℕ, ◌+◌, ◌/◌, leb, [], ◌≡◌, refl, arith}
use iot_distributed_gateway.Common.Text.{ascii}
use iot_distributed_gateway.Platform.Metrics.{
  Doubles, Metrics, get_aggregated, store, rank, extra_bits, share_50, share_95, share_99,
  push_sample,
}
use iot_distributed_gateway.Common.Dict.{insert, lookup}
use Prim.{tt}
use iot_distributed_gateway.Platform.Metrics.Windows.{IsOrder, Ordered, get_aggregated-Ordered}

abbrev numbers : Doubles ℕ
numbers = record { zero_value = 0; plus = λ a b. a + b; divided_by = λ a n. a / n; le = leb }

numbers-IsOrder : IsOrder numbers
numbers-IsOrder = record {
  reflexive = λ x. ground arith;
  transitive = λ x y z p q. ground arith;
  total = λ x y p. ground arith;
}

-- 0.95 is rounded down, and its product with 20 up to 19.
some_ranks :
    (rank share_50 3 ≡ 2)
    × (rank share_95 20 ≡ 19)
    × (rank share_95 21 ≡ 20)
    × (rank share_99 100 ≡ 99)
unfolding rank extra_bits
some_ranks = (refl, refl, refl, refl)

abbrev one_sample : Metrics ℕ
one_sample = store numbers 4000000 (ascii "m") 7 [] []

get_aggregated-Ordered_example :
    Ordered numbers numbers-IsOrder (get_aggregated numbers 5000000 (ascii "m") 60 one_sample)
unfolding store push_sample insert lookup
get_aggregated-Ordered_example =
    get_aggregated-Ordered numbers numbers-IsOrder 5000000 (ascii "m") 60 one_sample
      (omega arith, tt)
