-- ===== src/Platform/Alerts/Limits.antt =====
-- AlertEngine::evaluate: the history's size, the numbers of the alerts and the cooldown of a rule.
use iot_distributed_gateway.Common.{
  ℕ, suc, ◌+◌, ◌-◌, ◌*◌, ◌≤◌, ◌<◌, ◌≡◌, refl, ap, subst, ◌∙◌, bytes_eq, List, [], ◌∷◌, ◌++◌, true,
  not, if◌then◌else◌, leb, length, drop, length-append, length-drop, arith, Bool-cases,
  Option-cases, inl, inr,
}
use iot_distributed_gateway.Common.Dict.{lookup-insert, beq_refl}
use Prim.{Unit, tt}
use iot_distributed_gateway.Platform.Alerts.{
  AlertRule, AlertEvent, AlertEngine, World, max_history_size, fire_alert, evaluate_rule,
  evaluate_rules, evaluate, is_in_cooldown, is_triggered, recent,
}

-- The events are numbered one after the other from a number on.
abbrev pub Numbered : ℕ → List AlertEvent → Type 0
Numbered n [] = Unit {0}
Numbered n (a ∷ rest) = (a.id ≡ n) × Numbered (suc n) rest

Numbered-append :
    (n m : ℕ) (xs ys : List AlertEvent)
    → Numbered n xs
    → Numbered m ys
    → m ≡ n + length xs
    → Numbered n (xs ++ ys)
Numbered-append n m [] ys h k e =
    subst (λ (t : ℕ). Numbered t ys) (let p : m ≡ n = omega arith in p) k
Numbered-append n m (x ∷ xs) ys h k e = (h.0, Numbered-append (suc n) m xs ys h.1 k (omega arith))

length-pushed :
    (xs : List AlertEvent) (a : AlertEvent)
    → length xs ≤ max_history_size
    → length ((if leb max_history_size (length xs) then drop 1 xs else xs) ++ (a ∷ []))
      ≤ max_history_size
length-pushed xs a h = elim (Bool-cases (leb max_history_size (length xs))) [
  | inl full ↦ rw full (omega (arith, length-append (drop 1 xs) (a ∷ []), length-drop 1 xs))
  | inr room ↦
      let less : length xs < max_history_size = ground arith in
      rw room (omega (arith, length-append xs (a ∷ [])))
]

-- What an evaluation makes of an engine.
pub record Advances {R : Type 0} (e : AlertEngine R) (after : AlertEngine R × List AlertEvent)
    : Type 0 where
  pub bounded : length after.0.alert_history ≤ max_history_size
  pub ids : Numbered e.next_alert_id after.1
  pub counted : after.0.next_alert_id ≡ e.next_alert_id + length after.1

module _ {R : Type 0} (w : World R) where
  same-Advances :
      (e : AlertEngine R) → length e.alert_history ≤ max_history_size → Advances e (e, [])
  same-Advances e h = record { bounded = h; ids = tt; counted = omega arith }

  fire_alert-Advances :
      (now : ℕ) (rule : AlertRule R) (value : R) (e : AlertEngine R)
      → length e.alert_history ≤ max_history_size
      → Advances e ((fire_alert w now rule value e).0, (fire_alert w now rule value e).1 ∷ [])
  unfolding fire_alert
  fire_alert-Advances now rule value e h = record {
    bounded = length-pushed e.alert_history _ h;
    ids = (refl, tt);
    counted = omega arith;
  }

  evaluate_rule-Advances :
      (now : ℕ) (rule : AlertRule R) (e : AlertEngine R)
      → length e.alert_history ≤ max_history_size
      → Advances e (evaluate_rule w now rule e)
  unfolding evaluate_rule
  evaluate_rule-Advances now rule e h = elim (Bool-cases (not rule.enabled)) [
    | inl off ↦ rw off (same-Advances e h)
    | inr on ↦ elim (Bool-cases (is_in_cooldown now rule.name rule.cooldown_sec e)) [
      | inl cool ↦ rw (on, cool) (same-Advances e h)
      | inr ready ↦ elim (Option-cases (w.metrics rule.metric)) [
        | inl missing ↦ rw (on, ready, missing) (same-Advances e h)
        | inr (value, found) ↦ elim (Bool-cases (is_triggered w rule value)) [
          | inl high ↦ rw (on, ready, found, high) (fire_alert-Advances now rule value e h)
          | inr low ↦ rw (on, ready, found, low) (same-Advances e h)
        ]
      ]
    ]
  ]

  evaluate_rules-Advances :
      (now : ℕ) (rules : List (AlertRule R)) (e : AlertEngine R)
      → length e.alert_history ≤ max_history_size
      → Advances e (evaluate_rules w now rules e)
  unfolding evaluate_rules
  evaluate_rules-Advances now [] e h = same-Advances e h
  evaluate_rules-Advances now (rule ∷ rules) e h =
      let (e', events) = evaluate_rule w now rule e in
      let a : Advances e (e', events) = evaluate_rule-Advances now rule e h in
      let b = evaluate_rules-Advances now rules e' a.bounded in
      record {
        bounded = b.bounded;
        ids =
            Numbered-append e.next_alert_id e'.next_alert_id events
              (evaluate_rules w now rules e').1 a.ids b.ids a.counted;
        counted =
            omega
              (arith, a.counted, b.counted, length-append events (evaluate_rules w now rules e').1);
      }

  -- An evaluation numbers its alerts one after the other from the next number on, sets the next number
  -- behind them, and keeps the history within its size.
  pub evaluate-Advances :
      (now : ℕ) (e : AlertEngine R)
      → length e.alert_history ≤ max_history_size
      → Advances e (evaluate w now e)
  unfolding evaluate
  evaluate-Advances now e h = evaluate_rules-Advances now e.rules e h

  fire_alert-cooldown :
      (now later : ℕ) (rule : AlertRule R) (value : R) (e : AlertEngine R)
      → later - now < rule.cooldown_sec * 1000000
      → is_in_cooldown later rule.name rule.cooldown_sec (fire_alert w now rule value e).0 ≡ true
  unfolding fire_alert is_in_cooldown
  fire_alert-cooldown now later rule value e h =
      ap (recent later rule.cooldown_sec) (lookup-insert rule.name rule.name now e.cooldowns)
      ∙ rw (beq_refl rule.name) (ground arith)

  fired-cooldown :
      (now later : ℕ) (rule : AlertRule R) (e : AlertEngine R)
      → later - now < rule.cooldown_sec * 1000000
      → 0 < length (evaluate_rule w now rule e).1
      → is_in_cooldown later rule.name rule.cooldown_sec (evaluate_rule w now rule e).0 ≡ true
  unfolding evaluate_rule
  fired-cooldown now later rule e h f = elim (Bool-cases (not rule.enabled)) [
    | inl off ↦ absurd (omega (arith, rw off at f))
    | inr on ↦ elim (Bool-cases (is_in_cooldown now rule.name rule.cooldown_sec e)) [
      | inl cool ↦ absurd (omega (arith, rw (on, cool) at f))
      | inr ready ↦ elim (Option-cases (w.metrics rule.metric)) [
        | inl missing ↦ absurd (omega (arith, rw (on, ready, missing) at f))
        | inr (value, found) ↦ elim (Bool-cases (is_triggered w rule value)) [
          | inl high ↦ rw (on, ready, found, high) (fire_alert-cooldown now later rule value e h)
          | inr low ↦ absurd (omega (arith, rw (on, ready, found, low) at f))
        ]
      ]
    ]
  ]

  blocked :
      (later : ℕ) (rule : AlertRule R) (e : AlertEngine R)
      → is_in_cooldown later rule.name rule.cooldown_sec e ≡ true
      → evaluate_rule w later rule e ≡ (e, [])
  unfolding evaluate_rule
  blocked later rule e h = elim (Bool-cases (not rule.enabled)) [
    | inl off ↦ rw off refl
    | inr on ↦ rw (on, h) refl
  ]

-- A rule that fired does not fire again before its cooldown is over, whatever its metric says then.
pub evaluate_rule-cooldown :
    {R : Type 0} (w v : World R) (now later : ℕ) (rule : AlertRule R) (e : AlertEngine R)
    → later - now < rule.cooldown_sec * 1000000
    → 0 < length (evaluate_rule w now rule e).1
    → evaluate_rule v later rule (evaluate_rule w now rule e).0
      ≡ ((evaluate_rule w now rule e).0, [])
evaluate_rule-cooldown w v now later rule e h f =
    blocked v later rule (evaluate_rule w now rule e).0 (fired-cooldown w now later rule e h f)
