-- ===== src/Net/Pool/Tests.antt =====
-- Three loops, of which the second is next.
use iot_distributed_gateway.Common.{ℕ, [], ◌∷◌, true, arith}
use iot_distributed_gateway.Net.Pool.{EventLoopThreadPool, Assigned, get_all_loops}
use iot_distributed_gateway.Net.Pool.RoundRobin.{IsValid, get_all_loops-Assigned}

abbrev three : EventLoopThreadPool ℕ
three = record { base_loop = 9; started = true; next = 1; loops = 10 ∷ 11 ∷ 12 ∷ [] }

three-IsValid : IsValid three
unfolding IsValid get_all_loops
three-IsValid = omega arith

get_all_loops-Assigned_example : Assigned three (11 ∷ 12 ∷ 10 ∷ []) three
unfolding get_all_loops
get_all_loops-Assigned_example = get_all_loops-Assigned three three-IsValid
