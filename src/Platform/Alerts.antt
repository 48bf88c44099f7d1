-- ===== src/Platform/Alerts.antt =====
-- src/platform/AlertEngine.h and src/platform/AlertEngine.cpp. A double is a value of a type `R` whose
-- comparisons are given; what snprintf prints is given too. The clock is read once for an evaluation.
pub mod Limits
mod Tests
use iot_distributed_gateway.Common.{
  ℕ, suc, ◌+◌, ◌-◌, ◌*◌, bytes_eq, Bytes, bytes_test, List, [], ◌∷◌, ◌++◌, Bool, true, false, not,
  ◌&&◌, Option, none, some, if◌then◌else◌, ltb, leb, length, drop,
}
use iot_distributed_gateway.Common.Dict.{lookup, insert}
use iot_distributed_gateway.Common.Text.{ascii}

pub data AlertLevel : Type 0 where
  info warn critical fatal : AlertLevel

pub record AlertRule (R : Type 0) : Type 0 where
  pub name : Bytes
  pub metric : Bytes
  pub condition : Bytes
  pub threshold : R
  pub level : AlertLevel
  pub cooldown_sec : ℕ
  pub enabled : Bool

pub record AlertEvent : Type 0 where
  pub id : ℕ
  pub rule_name : Bytes
  pub metric : Bytes
  pub level : AlertLevel
  pub message : Bytes
  pub detail : Bytes
  pub timestamp : ℕ
  pub resolved : Bool
  pub resolved_at : ℕ

pub record AlertEngine (R : Type 0) : Type 0 where
  pub rules : List (AlertRule R)
  pub alert_history : List AlertEvent
  pub cooldowns : List (Bytes × ℕ)
  pub next_alert_id : ℕ

-- The comparisons of two doubles, the metrics' values, and the texts of an alert.
pub record World (R : Type 0) : Type 0 where
  pub above : R → R → Bool
  pub below : R → R → Bool
  pub near : R → R → Bool
  pub at_least : R → R → Bool
  pub metrics : Bytes → Option R
  pub printed : AlertRule R → R → Bytes × Bytes

abbrev pub max_history_size : ℕ
max_history_size = 1000

abbrev pub recent : ℕ → ℕ → Option ℕ → Bool
recent now cooldown_sec none = false
recent now cooldown_sec (some fired) = ltb (now - fired) (cooldown_sec * 1000000)

abbrev unresolved : List AlertEvent → ℕ
unresolved [] = 0
unresolved (a ∷ rest) = if a.resolved then unresolved rest else suc (unresolved rest)

module _ {R : Type 0} where
  unfoldable pub add_rule : AlertRule R → AlertEngine R → AlertEngine R
  add_rule rule e = record e { rules = e.rules ++ (rule ∷ []) }

  abbrev without : Bytes → List (AlertRule R) → List (AlertRule R)
  without name [] = []
  without name (r ∷ rs) = if bytes_test r.name name then without name rs else r ∷ without name rs

  unfoldable pub remove_rule : Bytes → AlertEngine R → AlertEngine R
  remove_rule name e = record e { rules = without name e.rules }

  -- The loop stops at the first rule of the name.
  abbrev with_enabled : Bytes → Bool → List (AlertRule R) → List (AlertRule R)
  with_enabled name on [] = []
  with_enabled name on (r ∷ rs) =
      if bytes_test r.name name then record r { enabled = on } ∷ rs else r ∷ with_enabled name on rs

  unfoldable pub enable_rule : Bytes → Bool → AlertEngine R → AlertEngine R
  enable_rule name on e = record e { rules = with_enabled name on e.rules }

  unfoldable pub is_in_cooldown : ℕ → Bytes → ℕ → AlertEngine R → Bool
  is_in_cooldown now name cooldown_sec e = recent now cooldown_sec (lookup name e.cooldowns)

  unfoldable pub is_triggered : World R → AlertRule R → R → Bool
  is_triggered w rule value =
      if bytes_test rule.condition (ascii ">")
      then w.above value rule.threshold
      else if bytes_test rule.condition (ascii "<")
      then w.below value rule.threshold
      else if bytes_test rule.condition (ascii "==")
      then w.near value rule.threshold
      else if bytes_test rule.condition (ascii ">=")
      then w.at_least value rule.threshold
      else false

  -- The event goes to the alert callback as well.
  unfoldable pub fire_alert :
      World R → ℕ → AlertRule R → R → AlertEngine R → AlertEngine R × AlertEvent
  fire_alert w now rule value e =
      let texts = w.printed rule value in
      let event : AlertEvent = record {
        id = e.next_alert_id;
        rule_name = rule.name;
        metric = rule.metric;
        level = rule.level;
        message = texts.0;
        detail = texts.1;
        timestamp = now;
        resolved = false;
        resolved_at = 0;
      } in
      (
        record e {
          next_alert_id = suc e.next_alert_id;
          cooldowns = insert rule.name now e.cooldowns;
          alert_history =
              (if leb max_history_size (length e.alert_history)
                then drop 1 e.alert_history
                else e.alert_history)
              ++ (event ∷ []);
        },
        event,
      )

  abbrev fired : AlertEngine R × AlertEvent → AlertEngine R × List AlertEvent
  fired (e, event) = (e, event ∷ [])

  abbrev judged :
      World R → ℕ → AlertRule R → Option R → AlertEngine R → AlertEngine R × List AlertEvent
  judged w now rule none e = (e, [])
  judged w now rule (some value) e =
      if is_triggered w rule value then fired (fire_alert w now rule value e) else (e, [])

  -- One round of the loop of evaluate, and the events that it fires.
  unfoldable pub evaluate_rule :
      World R → ℕ → AlertRule R → AlertEngine R → AlertEngine R × List AlertEvent
  evaluate_rule w now rule e =
      if not rule.enabled
      then (e, [])
      else if is_in_cooldown now rule.name rule.cooldown_sec e
      then (e, [])
      else judged w now rule (w.metrics rule.metric) e

  unfoldable pub evaluate_rules :
      World R → ℕ → List (AlertRule R) → AlertEngine R → AlertEngine R × List AlertEvent
  evaluate_rules w now [] e = (e, [])
  evaluate_rules w now (rule ∷ rules) e =
      let (e', events) = evaluate_rule w now rule e in
      let (e'', more) = evaluate_rules w now rules e' in (e'', events ++ more)

  unfoldable pub evaluate : World R → ℕ → AlertEngine R → AlertEngine R × List AlertEvent
  evaluate w now e = evaluate_rules w now e.rules e

  -- `limit` is not negative.
  unfoldable pub get_recent_alerts : ℕ → AlertEngine R → List AlertEvent
  get_recent_alerts limit e = drop (length e.alert_history - limit) e.alert_history

  unfoldable pub active_alert_count : AlertEngine R → ℕ
  active_alert_count e = unresolved e.alert_history
