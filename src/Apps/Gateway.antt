-- ===== src/Apps/Gateway.antt =====
-- apps/gateway_main.cpp: the arguments of the program. `none` is an overflow in std::atoi, which the
-- language leaves open. A signed number is its bit pattern.
pub mod Ports
use iot_distributed_gateway.Common.{
  ℕ, ◌%◌, ◌^◌, ◌==◌, Bytes, bytes_test, List, [], ◌∷◌, Bool, true, false, ◌||◌, Option, none, some,
  if◌then◌else◌,
}
use iot_distributed_gateway.Common.Text.{ascii}
use iot_distributed_gateway.Common.Decimal.{atoi}

pub record Options : Type 0 where
  pub node_id : Bytes
  pub mqtt_port : ℕ
  pub api_port : ℕ
  pub thread_num : ℕ
  pub redis_host : Bytes
  pub redis_port : ℕ
  pub tsdb_host : Bytes
  pub tsdb_port : ℕ
  pub log_level : Bytes

unfoldable pub defaults : Options
defaults = record {
  node_id = [];
  mqtt_port = 1883;
  api_port = 8080;
  thread_num = 4;
  redis_host = ascii "127.0.0.1";
  redis_port = 6379;
  tsdb_host = ascii "127.0.0.1";
  tsdb_port = 8086;
  log_level = ascii "INFO";
}

pub data Start : Type 0 where
  runs : Options → Start
  shows_usage : Start

abbrev pub is_either : Bytes → Bytes → Bytes → Bool
is_either arg short long = bytes_test arg short || bytes_test arg long

abbrev pub with_number : (ℕ → Options) → Option ℕ → Option Options
with_number f none = none
with_number f (some n) = some (f n)

-- A conversion to uint16_t.
abbrev pub with_port : (ℕ → Options) → Option ℕ → Option Options
with_port f none = none
with_port f (some n) = some (f (n % 2 ^ 16))

abbrev put_front : ℕ → Option (Bytes × Bytes) → Option (Bytes × Bytes)
put_front x none = none
put_front x (some (host, port)) = some (x ∷ host, port)

-- find(':') and the two substr around it.
unfoldable pub split_address : Bytes → Option (Bytes × Bytes)
split_address [] = none
split_address (x ∷ xs) = if x == 58 then some ([], xs) else put_front x (split_address xs)

abbrev with_address : Options → (Bytes → ℕ → Options) → Option (Bytes × Bytes) → Option Options
with_address o f none = some o
with_address o f (some (host, port)) = with_number (f host) (atoi port)

abbrev pub is_level : Bytes → Bool
is_level level =
    bytes_test level (ascii "TRACE")
    || (bytes_test level (ascii "DEBUG")
        || (bytes_test level (ascii "INFO")
            || (bytes_test level (ascii "WARN") || bytes_test level (ascii "ERROR"))))

-- An option with its value; `none` where the argument is no such option.
unfoldable pub take_option : Bytes → Bytes → Options → Option (Option Options)
unfolding split_address
take_option arg value o =
    if is_either arg (ascii "-n") (ascii "--node-id")
    then some (some (record o { node_id = value }))
    else if is_either arg (ascii "-p") (ascii "--port")
    then some (with_port (λ n. record o { mqtt_port = n }) (atoi value))
    else if is_either arg (ascii "-a") (ascii "--api-port")
    then some (with_port (λ n. record o { api_port = n }) (atoi value))
    else if is_either arg (ascii "-t") (ascii "--threads")
    then some (with_number (λ n. record o { thread_num = n }) (atoi value))
    else if is_either arg (ascii "-r") (ascii "--redis")
    then some
        (with_address o (λ h n. record o { redis_host = h; redis_port = n }) (split_address value))
    else if is_either arg (ascii "-i") (ascii "--influx")
    then some
        (with_address o (λ h n. record o { tsdb_host = h; tsdb_port = n }) (split_address value))
    else if is_either arg (ascii "-l") (ascii "--log-level")
    then some (some (if is_level value then record o { log_level = value } else o))
    else none

abbrev pub is_help : Bytes → Bool
is_help arg = is_either arg (ascii "-h") (ascii "--help")

abbrev pub then_parse : (Options → Option Start) → Option Options → Option Start
then_parse more none = none
then_parse more (some o) = more o

abbrev pub taken_or :
    (Options → Option Start)
    → (Options → Option Start)
    → Bytes
    → Options
    → Option (Option Options)
    → Option Start
taken_or after_value after_arg arg o (some r) = then_parse after_value r
taken_or after_value after_arg arg o none = elim (is_help arg) [
  | true ↦ some shows_usage
  | false ↦ after_arg o
]

-- The loop over the arguments behind the program's name. An option that stands last has no value and is
-- left.
unfoldable pub parse_arguments : List Bytes → Options → Option Start
unfolding take_option
parse_arguments [] o = some (runs o)
parse_arguments (arg ∷ []) o = if is_help arg then some shows_usage else some (runs o)
parse_arguments (arg ∷ value ∷ rest) o =
    taken_or (parse_arguments rest) (parse_arguments (value ∷ rest)) arg o (take_option arg value o)
