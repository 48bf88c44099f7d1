-- ===== src/Protocol/Types.antt =====
-- src/protocol/MqttTypes.h: packet types, flags and the parsed packets.
use iot_distributed_gateway.Common.{
  ℕ, zero, suc, ◌+◌, ◌*◌, ◌/◌, ◌%◌, Bytes, bit_and, bit_or, if◌then◌else◌, ◌==◌,
}

-- An enum class over uint8_t: a value that has no name is kept by its number.
pub data PacketType : Type 0 where
  connect connack publish puback pubrec pubrel pubcomp subscribe suback : PacketType
  unsubscribe unsuback pingreq pingresp disconnect : PacketType
  unnamed : ℕ → PacketType

unfoldable pub packet_type_code : PacketType → ℕ
packet_type_code connect = 1
packet_type_code connack = 2
packet_type_code publish = 3
packet_type_code puback = 4
packet_type_code pubrec = 5
packet_type_code pubrel = 6
packet_type_code pubcomp = 7
packet_type_code subscribe = 8
packet_type_code suback = 9
packet_type_code unsubscribe = 10
packet_type_code unsuback = 11
packet_type_code pingreq = 12
packet_type_code pingresp = 13
packet_type_code disconnect = 14
packet_type_code (unnamed n) = n

abbrev named : ℕ → PacketType
named zero = unnamed 0
named (suc zero) = connect
named (suc (suc zero)) = connack
named (suc (suc (suc zero))) = publish
named (suc (suc (suc (suc zero)))) = puback
named (suc (suc (suc (suc (suc n))))) =
    if n == 0
    then pubrec
    else if n == 1
    then pubrel
    else if n == 2
    then pubcomp
    else if n == 3
    then subscribe
    else if n == 4
    then suback
    else if n == 5
    then unsubscribe
    else if n == 6
    then unsuback
    else if n == 7
    then pingreq
    else if n == 8
    then pingresp
    else if n == 9
    then disconnect
    else unnamed (5 + n)

abbrev pub connect_flag_username : ℕ
connect_flag_username = 0x80

abbrev pub connect_flag_password : ℕ
connect_flag_password = 0x40

abbrev pub connect_flag_will_flag : ℕ
connect_flag_will_flag = 0x04

pub data ConnAckCode : Type 0 where
  accepted unacceptable_protocol identifier_rejected server_unavailable : ConnAckCode
  bad_username_password not_authorized : ConnAckCode

unfoldable pub conn_ack_code : ConnAckCode → ℕ
conn_ack_code accepted = 0
conn_ack_code unacceptable_protocol = 1
conn_ack_code identifier_rejected = 2
conn_ack_code server_unavailable = 3
conn_ack_code bad_username_password = 4
conn_ack_code not_authorized = 5

-- MqttQoS; `reserved` is the value 3, which two bits can hold and the enum does not name.
pub data QoS : Type 0 where
  at_most_once at_least_once exactly_once reserved : QoS

abbrev pub qos_code : QoS → ℕ
qos_code at_most_once = 0
qos_code at_least_once = 1
qos_code exactly_once = 2
qos_code reserved = 3

-- The cast of two bits.
unfoldable pub qos_of_bits : ℕ → QoS
qos_of_bits n =
    if n == 0
    then at_most_once
    else if n == 1
    then at_least_once
    else if n == 2
    then exactly_once
    else reserved

pub record ConnectPayload : Type 0 where
  pub protocol_name : Bytes
  pub protocol_level : ℕ
  pub flags : ℕ
  pub keep_alive : ℕ
  pub client_id : Bytes
  pub will_topic : Bytes
  pub will_message : Bytes
  pub username : Bytes
  pub password : Bytes

pub record TopicFilter : Type 0 where
  pub topic : Bytes
  pub qos : ℕ

-- The result is a uint8_t.
unfoldable pub packet_type_byte : PacketType → ℕ → ℕ
unfolding packet_type_code
packet_type_byte type flags = bit_or (packet_type_code type * 16) (bit_and flags 0x0f) % 256

unfoldable pub packet_type_from_byte : ℕ → PacketType
packet_type_from_byte byte = named (byte / 16)

unfoldable pub packet_flags : ℕ → ℕ
packet_flags byte = bit_and byte 0x0f
