-- ===== src/Platform/Alerts/Tests.antt =====
-- An engine with one rule, for the theorems about alerts.
use iot_distributed_gateway.Common.{ℕ, ◌<◌, ltb, leb, ◌==◌, [], ◌∷◌, true, some, ◌≡◌, arith, length}
use iot_distributed_gateway.Common.Dict.{lookup}
use iot_distributed_gateway.Common.Text.{ascii}
use iot_distributed_gateway.Platform.Alerts.{
  AlertRule, AlertEngine, World, warn, evaluate, evaluate_rule, is_in_cooldown, is_triggered,
}
use iot_distributed_gateway.Platform.Alerts.Limits.{
  Advances, evaluate-Advances, evaluate_rule-cooldown,
}

-- Every metric stands at 9.
abbrev world : World ℕ
world = record {
  above = λ a b. ltb b a;
  below = ltb;
  near = λ a b. a == b;
  at_least = λ a b. leb b a;
  metrics = λ name. some 9;
  printed = λ rule value. ([], []);
}

abbrev rule : AlertRule ℕ
rule = record {
  name = ascii "pending";
  metric = ascii "commands";
  condition = ascii ">";
  threshold = 5;
  level = warn;
  cooldown_sec = 300;
  enabled = true;
}

abbrev engine : AlertEngine ℕ
engine = record { rules = rule ∷ []; alert_history = []; cooldowns = []; next_alert_id = 1 }

evaluate-Advances_example : Advances engine (evaluate world 1000000 engine)
evaluate-Advances_example = evaluate-Advances world 1000000 engine (omega arith)

it_fires : 0 < length (evaluate_rule world 1000000 rule engine).1
unfolding evaluate_rule is_in_cooldown is_triggered lookup
it_fires = omega arith

evaluate_rule-cooldown_example :
    evaluate_rule world 2000000 rule (evaluate_rule world 1000000 rule engine).0
    ≡ ((evaluate_rule world 1000000 rule engine).0, [])
evaluate_rule-cooldown_example =
    evaluate_rule-cooldown world world 1000000 2000000 rule engine (omega arith) it_fires
