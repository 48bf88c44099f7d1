-- ===== src/Apps/Simulator/Names.antt =====
-- apps/simulator_main.cpp: the names of the devices.
use iot_distributed_gateway.Common.{
  ℕ, zero, suc, ◌-◌, ◌≡◌, refl, sym, ap, ◌∙◌, Bytes, ◌++◌, drop, length, replicate,
}
use iot_distributed_gateway.Common.Text.{to_string}
use iot_distributed_gateway.Common.Decimal.{digits, digits-to_string}
use iot_distributed_gateway.Apps.Simulator.{device_name}

digits-replicate : (k : ℕ) (text : Bytes) → digits 0 (replicate k 48 ++ text) ≡ digits 0 text
unfolding digits
digits-replicate zero text = refl
digits-replicate (suc k) text = digits-replicate k text

digits-device_name : (i : ℕ) → digits 0 (drop 11 (device_name i)) ≡ i
unfolding device_name
digits-device_name i =
    digits-replicate (5 - length (to_string i)) (to_string i) ∙ digits-to_string i

-- Different devices have different names, also where the number has more than five digits.
pub device_name-inj : (i j : ℕ) → device_name i ≡ device_name j → i ≡ j
device_name-inj i j e =
    sym (digits-device_name i) ∙ ap (λ n. digits 0 (drop 11 n)) e ∙ digits-device_name j
