-- ===== src/Apps/Simulator/Greeting.antt =====
-- apps/simulator_main.cpp and MqttCodec::parse: the gateway reads what a simulated device sends.
use iot_distributed_gateway.Common.{
  ℕ, zero, suc, ◌+◌, ◌/◌, ◌%◌, ◌^◌, ◌<◌, ◌≡◌, refl, sym, ap, ◌∙◌, Bytes, [], ◌∷◌, ◌++◌, true, some,
  arith, length, ltb, length-append, append_assoc, append-nil, Bool-cases, inl, inr,
}
use iot_distributed_gateway.Common.Text.{ascii}
use iot_distributed_gateway.Protocol.Types.{
  ConnectPayload, PacketType, packet_type_byte, packet_type_from_byte,
}
use iot_distributed_gateway.Protocol.Codec.{
  Codec, connect_cb, ok, call, parse_bytes, parse_connect, connect_body, connect_payload, dispatch,
  read_mqtt_string, is_flagged, htons,
}
use iot_distributed_gateway.Protocol.Codec.Extends.{length_bytes}
use iot_distributed_gateway.Protocol.Codec.Packets.{
  parse_bytes_frame, read_mqtt_string-htons, answered,
}
use iot_distributed_gateway.Protocol.Codec.RemainingLength.{length_bytes_enough}
use iot_distributed_gateway.Apps.Simulator.{
  MqttClient, sends, on_connection, rl_bytes, connect_packet,
}
use iot_distributed_gateway.Apps.Simulator

-- The simulator's loop over the length is that of the codec.
rl_bytes_lem :
    (room n : ℕ) → n < 128 ^ suc room → rl_bytes (suc room) n ≡ some (length_bytes (suc room) n)
unfolding rl_bytes length_bytes
rl_bytes_lem zero n h = ground arith
rl_bytes_lem (suc room) n h = elim (Bool-cases (ltb 0 (n / 128))) [
  | inl more ↦ rw more (rw (rl_bytes_lem room (n / 128) (omega arith)) refl)
  | inr last ↦ rw last refl
]

-- What a simulated device says of itself.
abbrev pub greeting : Bytes → ConnectPayload
greeting id = record {
  protocol_name = ascii "MQTT";
  protocol_level = 4;
  flags = 0x02;
  keep_alive = 60;
  client_id = id;
  will_topic = [];
  will_message = [];
  username = [];
  password = [];
}

dispatch_greeting :
    (c : Codec) (id : Bytes) (total : ℕ)
    → length id < 2 ^ 16
    → answered c (packet_type_byte PacketType.connect 0) (Simulator.connect_body id) total
      ≡ record { result = ok; event = call c (connect_cb (greeting id)); total_len = total }
unfolding dispatch parse_connect connect_body connect_payload is_flagged packet_type_byte
    packet_type_from_byte
dispatch_greeting c id total h =
    let rest : Bytes = 4 ∷ 0x02 ∷ (htons 60 ++ (htons (length id % 2 ^ 16) ++ id)) in
    let name : read_mqtt_string (Simulator.connect_body id) ≡ (ascii "MQTT", rest) =
      read_mqtt_string-htons (ascii "MQTT") rest (omega arith) in
    let field : read_mqtt_string (htons (length id % 2 ^ 16) ++ id) ≡ (id, []) =
      ap (λ t. read_mqtt_string (htons (length id % 2 ^ 16) ++ t)) (sym (append-nil id))
      ∙ read_mqtt_string-htons id [] h in
    rw name (rw field refl)

length-connect_body : (id : Bytes) → length (Simulator.connect_body id) ≡ 12 + length id
length-connect_body id = omega arith

-- The CONNECT that a simulated device sends when its connection comes up, for an identifier of less than
-- 65536 bytes, fits the simulator's arrays, and the gateway's codec reads it as one packet, whatever
-- follows: MQTT at level 4 with a clean session, a keep-alive of 60 seconds and the device's identifier.
pub parse_bytes-on_connection :
    (c : Codec) (m : MqttClient) (rest : Bytes)
    → length m.client_id < 2 ^ 16
    → (packet : Bytes) × (on_connection true m
        ≡ some (record m { connected = true }, sends packet ∷ []))
      × (parse_bytes c (packet ++ rest)
          ≡ some (record {
            result = ok;
            event = call c (connect_cb (greeting m.client_id));
            total_len = length packet;
          }))
unfolding on_connection connect_packet
parse_bytes-on_connection c m rest h =
    let body = Simulator.connect_body m.client_id in
    let n : (10 + 2 + length m.client_id) % 2 ^ 32 ≡ length body =
      omega (arith, length-connect_body m.client_id) in
    let small : length body < 128 ^ 4 = omega (arith, length-connect_body m.client_id) in
    let head : Bytes = packet_type_byte PacketType.connect 0 ∷ length_bytes 5 (length body) in
    let l : rl_bytes 4 ((10 + 2 + length m.client_id) % 2 ^ 32)
        ≡ some (length_bytes 5 (length body)) =
      ap (rl_bytes 4) n
      ∙ rl_bytes_lem 3 (length body) small
      ∙ ap some (length_bytes_enough 3 4 (length body) small (omega arith)) in
    (
      head ++ body,
      rw l refl,
      rw (append_assoc head body rest) (
          parse_bytes_frame c (packet_type_byte PacketType.connect 0) body rest (omega arith)
          ∙ ap some (
              dispatch_greeting c m.client_id _ h
              ∙ ap
                  (λ (k : ℕ). record {
                    result = ok;
                    event = call c (connect_cb (greeting m.client_id));
                    total_len = k;
                  })
                  (omega (arith, length-append head body)))),
    )
