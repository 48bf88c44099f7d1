-- ===== src/Protocol/Codec/Extends.antt =====
-- MqttCodec's encoders, and the bytes that each writes behind those of its buffer.
use iot_distributed_gateway.Common.{
  ℕ, zero, suc, ◌+◌, ◌/◌, ◌%◌, ◌^◌, ◌≡◌, ap, ◌∙◌, Bytes, [], ◌∷◌, ◌++◌, Bool, true, false, bit_or,
  if◌then◌else◌, ltb, arith, append_assoc, append-nil, length, Bool-cases, inl, inr,
}
use iot_distributed_gateway.Net.Buffer.{Buffer, IsValid, view, append}
use iot_distributed_gateway.Net.Buffer.Space.{append-IsValid}
use iot_distributed_gateway.Net.Buffer.View.{view-append}
use iot_distributed_gateway.Protocol.Types.{
  PacketType, ConnAckCode, QoS, packet_type_byte, conn_ack_code,
}
use iot_distributed_gateway.Protocol.Codec.{
  htons, encode_loop, encode_remaining_length, write_mqtt_string, append_all, encode_conn_ack,
  encode_sub_ack, encode_pub_ack, encode_publish, encode_ping_resp, encode_unsub_ack, publish_flags,
  is_above_zero,
}

-- `b'` is well formed and holds the readable bytes of `b` with `xs` behind them.
pub record Extends (b b' : Buffer) (xs : Bytes) : Type 0 where
  pub valid : IsValid b'
  pub behind : view b' ≡ view b ++ xs

pub append-Extends : (xs : Bytes) (b : Buffer) → IsValid b → Extends b (append xs b) xs
append-Extends xs b v = record { valid = append-IsValid xs b v; behind = view-append xs b v }

pub Extends-append :
    {b b' : Buffer} {xs : Bytes} (ys : Bytes)
    → Extends b b' xs
    → Extends b (append ys b') (xs ++ ys)
Extends-append {b} {b'} {xs} ys e = record {
  valid = append-IsValid ys b' e.valid;
  behind =
      view-append ys b' e.valid
      ∙ ap (λ (t : Bytes). t ++ ys) e.behind
      ∙ append_assoc (view b) xs ys;
}

pub Extends-trans :
    {a b c : Buffer} {xs ys : Bytes} → Extends a b xs → Extends b c ys → Extends a c (xs ++ ys)
Extends-trans {a} {b} {c} {xs} {ys} d e = record {
  valid = e.valid;
  behind = e.behind ∙ ap (λ (t : Bytes). t ++ ys) d.behind ∙ append_assoc (view a) xs ys;
}

-- The variable-length form of a number, lowest group of seven bits first.
unfoldable pub length_bytes : ℕ → ℕ → Bytes
length_bytes zero len = []
length_bytes (suc rounds) len =
    let rest = length_bytes rounds (len / 128) in
    if ltb 0 (len / 128) then bit_or (len % 128) 0x80 ∷ rest else (len % 128) ∷ []

pub encode_loop-Extends :
    (rounds len : ℕ) (b : Buffer)
    → IsValid b
    → Extends b (encode_loop rounds len b) (length_bytes rounds len)
unfolding encode_loop length_bytes
encode_loop-Extends zero len b v = record {
  valid = v;
  behind = ground (arith, append-nil (view b));
}
encode_loop-Extends (suc rounds) len b v = elim (Bool-cases (ltb 0 (len / 128))) [
  | inl more ↦
      let first = append-Extends (bit_or (len % 128) 0x80 ∷ []) b v in
      rw more (Extends-trans first (encode_loop-Extends rounds (len / 128) _ first.valid))
  | inr last ↦ rw last (append-Extends ((len % 128) ∷ []) b v)
]

pub encode_remaining_length-Extends :
    (len : ℕ) (b : Buffer)
    → IsValid b
    → Extends b (encode_remaining_length len b) (length_bytes 5 len)
unfolding encode_remaining_length
encode_remaining_length-Extends len b v = encode_loop-Extends 5 len b v

-- A fixed header and what follows it.
pub header-Extends :
    (type len : ℕ) (b : Buffer)
    → IsValid b
    → Extends b (encode_remaining_length len (append (type ∷ []) b)) (type ∷ length_bytes 5 len)
header-Extends type len b v =
    let first = append-Extends (type ∷ []) b v in
    Extends-trans first (encode_remaining_length-Extends len _ first.valid)

pub encode_conn_ack-Extends :
    (code : ConnAckCode) (b : Buffer)
    → IsValid b
    → Extends b (encode_conn_ack code b) (0x20 ∷ 2 ∷ 0 ∷ conn_ack_code code ∷ [])
unfolding encode_conn_ack packet_type_byte length_bytes
encode_conn_ack-Extends code b v =
    Extends-append (conn_ack_code code ∷ []) (Extends-append (0 ∷ []) (header-Extends 0x20 2 b v))

pub encode_pub_ack-Extends :
    (id : ℕ) (b : Buffer) → IsValid b → Extends b (encode_pub_ack id b) (0x40 ∷ 2 ∷ htons id)
unfolding encode_pub_ack packet_type_byte length_bytes
encode_pub_ack-Extends id b v = Extends-append (htons id) (header-Extends 0x40 2 b v)

pub encode_unsub_ack-Extends :
    (id : ℕ) (b : Buffer) → IsValid b → Extends b (encode_unsub_ack id b) (0xb0 ∷ 2 ∷ htons id)
unfolding encode_unsub_ack packet_type_byte length_bytes
encode_unsub_ack-Extends id b v = Extends-append (htons id) (header-Extends 0xb0 2 b v)

pub encode_ping_resp-Extends :
    (b : Buffer) → IsValid b → Extends b (encode_ping_resp b) (0xd0 ∷ 0 ∷ [])
unfolding encode_ping_resp packet_type_byte
encode_ping_resp-Extends b v = Extends-append (0 ∷ []) (append-Extends (0xd0 ∷ []) b v)

append_if-Extends :
    (test : Bool) (ys : Bytes) (b b' : Buffer) (xs : Bytes)
    → Extends b b' xs
    → Extends b (if test then append ys b' else b') (xs ++ (if test then ys else []))
append_if-Extends true ys b b' xs e = Extends-append ys e
append_if-Extends false ys b b' xs e = rw append-nil e

reshape : {b b' : Buffer} {xs ys : Bytes} → xs ≡ ys → Extends b b' xs → Extends b b' ys
reshape p e = rw p at e

append_all-Extends :
    (rcs : Bytes) (b b' : Buffer) (xs : Bytes)
    → Extends b b' xs
    → Extends b (append_all rcs b') (xs ++ rcs)
append_all-Extends [] b b' xs e = rw append-nil e
append_all-Extends (rc ∷ rcs) b b' xs e =
    rw (append_assoc xs (rc ∷ []) rcs) at
      (append_all-Extends rcs b (append (rc ∷ []) b') (xs ++ rc ∷ []) (Extends-append (rc ∷ []) e))

-- encodeSubAck puts behind the readable bytes of a well-formed buffer the header byte, the length bytes
-- of two and the number of return codes, the identifier and the return codes in order.
pub encode_sub_ack-Extends :
    (id : ℕ) (rcs : Bytes) (b : Buffer)
    → IsValid b
    → Extends b
        (encode_sub_ack id rcs b)
        (((0x90 ∷ length_bytes 5 ((2 + length rcs) % 2 ^ 32)) ++ htons id) ++ rcs)
unfolding encode_sub_ack packet_type_byte
encode_sub_ack-Extends id rcs b v =
    append_all-Extends rcs b _ _
      (Extends-append (htons id) (header-Extends 0x90 ((2 + length rcs) % 2 ^ 32) b v))

-- The variable header and the payload of PUBLISH.
unfoldable pub publish_body : Bytes → Bytes → QoS → ℕ → Bytes
publish_body topic payload qos id =
    htons (length topic % 2 ^ 16)
    ++ (topic ++ ((if is_above_zero qos then htons id else []) ++ payload))

abbrev pub publish_length : Bytes → Bytes → QoS → ℕ
publish_length topic payload qos =
    (2 + length topic + (if is_above_zero qos then 2 else 0) + length payload) % 2 ^ 32

pub encode_publish-Extends :
    (topic payload : Bytes) (qos : QoS) (id : ℕ) (retain : Bool) (b : Buffer)
    → IsValid b
    → Extends b (encode_publish topic payload qos id retain b) (
        (packet_type_byte PacketType.publish (publish_flags qos retain)
          ∷ length_bytes 5 (publish_length topic payload qos))
        ++ publish_body topic payload qos id)
unfolding encode_publish publish_body write_mqtt_string
encode_publish-Extends topic payload qos id retain b v =
    let type = packet_type_byte PacketType.publish (publish_flags qos retain) in
    let h = header-Extends type (publish_length topic payload qos) b v in
    let t = Extends-append topic (Extends-append (htons (length topic % 2 ^ 16)) h) in
    reshape (simp append_assoc)
      (Extends-append payload (append_if-Extends (is_above_zero qos) (htons id) b _ _ t))
