-- ===== src/Apps/Gateway/Ports.antt =====
-- apps/gateway_main.cpp: the ports that the program is started with.
use iot_distributed_gateway.Common.{ℕ, ◌%◌, ◌^◌, ◌<◌, ◌≡◌, ap, Bytes, List, ◌∷◌, arith}
use iot_distributed_gateway.Common.Text.{ascii, to_string}
use iot_distributed_gateway.Common.Decimal.{atoi-to_string}
use iot_distributed_gateway.Apps.Gateway.{Options, parse_arguments, take_option}

-- A port number that is given in decimal is the port that the gateway listens on, whatever follows.
parse_arguments-to_string :
    (port : ℕ) (rest : List Bytes) (o : Options)
    → port < 2 ^ 16
    → parse_arguments (ascii "--port" ∷ to_string port ∷ rest) o
      ≡ parse_arguments rest (record o { mqtt_port = port })
unfolding parse_arguments take_option
parse_arguments-to_string port rest o h =
    let small : port % 2 ^ 16 ≡ port = omega arith in
    rw (atoi-to_string port (omega arith))
      (ap (λ (n : ℕ). parse_arguments rest (record o { mqtt_port = n })) small)
