-- ===== src/Protocol/Codec/Packets.antt =====
-- MqttCodec::encodePublish and encodePubAck, and MqttCodec::parse on what they write.
use iot_distributed_gateway.Common.{
  ℕ, ◌+◌, ◌*◌, ◌/◌, ◌%◌, ◌^◌, ◌≤◌, ◌<◌, ◌≡◌, refl, ap, ◌∙◌, Bytes, [], ◌∷◌, ◌++◌, Bool, true, false,
  some, ltb, arith, length, take, drop, length-append, take-append, drop-append, if◌then◌else◌,
  bit_and, append_assoc,
}
use iot_distributed_gateway.Net.Buffer.{Buffer, IsValid, view}
use iot_distributed_gateway.Protocol.Types.{
  PacketType, QoS, qos_of_bits, packet_type_byte, packet_type_from_byte, packet_flags,
}
use iot_distributed_gateway.Protocol.Codec.{
  Codec, publish_cb, puback_cb, ok, Parsed, decode_remaining_length, dispatch, parse_bytes,
  parse_publish, parse_puback, parse_packet, packet_id, read_mqtt_string, call, htons,
  is_above_zero, publish_flags, is_flagged, encode_publish, encode_pub_ack,
}
use iot_distributed_gateway.Protocol.Codec.RemainingLength.{
  decode-length_bytes, length-length_bytes,
}
use iot_distributed_gateway.Protocol.Codec.Extends.{
  length_bytes, publish_body, publish_length, encode_publish-Extends, encode_pub_ack-Extends,
}

parse_bytes_cons :
    (c : Codec) (first : ℕ) (p : Bytes)
    → 1 ≤ length p
    → parse_bytes c (first ∷ p)
      ≡ parse_packet c first p (decode_remaining_length p).0 (decode_remaining_length p).1
unfolding parse_bytes
parse_bytes_cons c first [] h = absurd (omega arith)
parse_bytes_cons c first (x ∷ p) h = refl

-- What `dispatch` makes of a packet's body.
abbrev pub answered : Codec → ℕ → Bytes → ℕ → Parsed
answered c first body total_len =
    let a = dispatch c (packet_type_from_byte first) (packet_flags first) body in
    record { result = a.0; event = a.1; total_len = total_len }

parse_packet_cut :
    (c : Codec) (first n rl : ℕ) (l body rest : Bytes)
    → n ≡ length body
    → rl ≡ length l
    → parse_packet c first (l ++ (body ++ rest)) n rl ≡ some (answered c first body (1 + rl + n))
unfolding parse_packet
parse_packet_cut c first n rl l body rest e e' =
    let whole : ltb (length (l ++ (body ++ rest)) + 1) (1 + rl + n) ≡ false =
      ground (arith, length-append l (body ++ rest), length-append body rest) in
    let cut : take n (drop rl (l ++ (body ++ rest))) ≡ body =
      ap (take n) (drop-append rl l (body ++ rest) e') ∙ take-append n body rest e in
    rw whole (rw cut refl)

-- A header byte, a length field and as many bytes as it says are one packet, and what follows is not
-- looked at.
pub parse_bytes_frame :
    (c : Codec) (first : ℕ) (body rest : Bytes)
    → length body < 2 ^ 28
    → parse_bytes c ((first ∷ length_bytes 5 (length body)) ++ (body ++ rest))
      ≡ some (answered c first body (1 + length (length_bytes 5 (length body)) + length body))
parse_bytes_frame c first body rest h =
    let l = length_bytes 5 (length body) in
    parse_bytes_cons c first (l ++ (body ++ rest))
      (omega (arith, length-append l (body ++ rest), length-length_bytes 4 (length body)))
    ∙ rw (decode-length_bytes (length body) (body ++ rest) h)
        (parse_packet_cut c first (length body) (length l) l body rest refl refl)

-- A string that was written is read back, and the pointer stands behind it.
pub read_mqtt_string-htons :
    (str rest : Bytes)
    → length str < 2 ^ 16
    → read_mqtt_string (htons (length str % 2 ^ 16) ++ (str ++ rest)) ≡ (str, rest)
unfolding read_mqtt_string
read_mqtt_string-htons str rest h =
    let n = length str % 2 ^ 16 / 256 % 256 * 256 + length str % 2 ^ 16 % 256 in
    let e : n ≡ length str = omega arith in
    rw e (
      ground (
        arith,
        length-append str rest,
        take-append (length str) str rest refl,
        drop-append (length str) str rest refl,
      ))

publish_header :
    (qos : QoS) (retain : Bool)
    → (packet_type_from_byte (packet_type_byte PacketType.publish (publish_flags qos retain))
        ≡ PacketType.publish)
      × (is_flagged
            (packet_flags (packet_type_byte PacketType.publish (publish_flags qos retain)))
            0x01
          ≡ retain)
      × (qos_of_bits (
            bit_and
              (packet_flags (packet_type_byte PacketType.publish (publish_flags qos retain)) / 2)
              0x03)
          ≡ qos)
unfolding packet_type_from_byte packet_type_byte packet_flags qos_of_bits is_flagged
publish_header QoS.at_most_once true = (refl, refl, refl)
publish_header QoS.at_most_once false = (refl, refl, refl)
publish_header QoS.at_least_once true = (refl, refl, refl)
publish_header QoS.at_least_once false = (refl, refl, refl)
publish_header QoS.exactly_once true = (refl, refl, refl)
publish_header QoS.exactly_once false = (refl, refl, refl)
publish_header QoS.reserved true = (refl, refl, refl)
publish_header QoS.reserved false = (refl, refl, refl)

-- The identifier that goes over the wire.
abbrev pub sent_id : QoS → ℕ → ℕ
sent_id qos id = if is_above_zero qos then id else 0

packet_id-htons :
    (qos : QoS) (id : ℕ) (payload : Bytes)
    → id < 2 ^ 16
    → packet_id qos ((if is_above_zero qos then htons id else []) ++ payload)
      ≡ some (sent_id qos id, payload)
unfolding packet_id
packet_id-htons QoS.at_most_once id payload h = refl
packet_id-htons QoS.at_least_once id payload h = ap (λ (n : ℕ). some (n, payload)) (omega arith)
packet_id-htons _ id payload h = ap (λ (n : ℕ). some (n, payload)) (omega arith)

parse_publish_lem :
    (c : Codec) (flags id : ℕ) (bytes p topic payload : Bytes) (retain : Bool) (qos : QoS)
    → is_flagged flags 0x01 ≡ retain
    → qos_of_bits (bit_and (flags / 2) 0x03) ≡ qos
    → read_mqtt_string bytes ≡ (topic, p)
    → packet_id qos p ≡ some (id, payload)
    → parse_publish c flags bytes ≡ (ok, call c (publish_cb topic payload qos retain id))
unfolding parse_publish
parse_publish_lem c flags id bytes p topic payload retain qos e₁ e₂ e₃ e₄ =
    rw (e₁, e₂) (rw e₃ (rw e₄ refl))

length-publish_body :
    (topic payload : Bytes) (qos : QoS) (id : ℕ)
    → length (publish_body topic payload qos id)
      ≡ 2 + length topic + (if is_above_zero qos then 2 else 0) + length payload
unfolding publish_body
length-publish_body topic payload QoS.at_most_once id = omega (arith, length-append topic payload)
length-publish_body topic payload QoS.at_least_once id =
    omega (arith, length-append topic (htons id ++ payload))
length-publish_body topic payload _ id = omega (arith, length-append topic (htons id ++ payload))

dispatch_publish :
    (c : Codec) (topic payload : Bytes) (qos : QoS) (id : ℕ) (retain : Bool) (total : ℕ)
    → length topic < 2 ^ 16
    → id < 2 ^ 16
    → answered c
        (packet_type_byte PacketType.publish (publish_flags qos retain))
        (publish_body topic payload qos id)
        total
      ≡ record {
        result = ok;
        event = call c (publish_cb topic payload qos retain (sent_id qos id));
        total_len = total;
      }
unfolding dispatch publish_body
dispatch_publish c topic payload qos id retain total h k =
    let (t, r, q) = publish_header qos retain in
    rw t (
      rw
        (parse_publish_lem c _ (sent_id qos id) _ _ topic payload retain qos r q
          (read_mqtt_string-htons topic _ h) (packet_id-htons qos id payload k))
        refl)

packet_bytes :
    (topic payload : Bytes) (qos : QoS) (id : ℕ) (retain : Bool) (b : Buffer)
    → IsValid b
    → view b ≡ []
    → 2 + length topic + (if is_above_zero qos then 2 else 0) + length payload < 2 ^ 28
    → let body = publish_body topic payload qos id in
      view (encode_publish topic payload qos id retain b)
      ≡ (packet_type_byte PacketType.publish (publish_flags qos retain)
          ∷ length_bytes 5 (length body))
        ++ body
packet_bytes topic payload qos id retain b v empty l =
    let n : publish_length topic payload qos ≡ length (publish_body topic payload qos id) =
      omega (arith, length-publish_body topic payload qos id) in
    rw (empty, n) at (encode_publish-Extends topic payload qos id retain b v).behind

-- What encodePublish wrote, parse reads back: topic, payload, level of service, retain flag and, above
-- level 0, the identifier; the packet is cut at its end, whatever follows it.
pub parse_bytes-encode_publish :
    (c : Codec) (topic payload rest : Bytes) (qos : QoS) (id : ℕ) (retain : Bool) (b : Buffer)
    → IsValid b
    → view b ≡ []
    → length topic < 2 ^ 16
    → 2 + length topic + (if is_above_zero qos then 2 else 0) + length payload < 2 ^ 28
    → id < 2 ^ 16
    → let packet = view (encode_publish topic payload qos id retain b) in
      parse_bytes c (packet ++ rest)
      ≡ some (record {
        result = ok;
        event = call c (publish_cb topic payload qos retain (sent_id qos id));
        total_len = length packet;
      })
parse_bytes-encode_publish c topic payload rest qos id retain b v empty h l k =
    let body = publish_body topic payload qos id in
    let first = packet_type_byte PacketType.publish (publish_flags qos retain) in
    let head : Bytes = first ∷ length_bytes 5 (length body) in
    rw (packet_bytes topic payload qos id retain b v empty l) (
      rw (append_assoc head body rest) (
        parse_bytes_frame c first body rest
          (omega (arith, length-publish_body topic payload qos id))
        ∙ ap some (
            dispatch_publish c topic payload qos id retain _ h k
            ∙ ap
                (λ (n : ℕ). record {
                  result = ok;
                  event = call c (publish_cb topic payload qos retain (sent_id qos id));
                  total_len = n;
                })
                (omega (arith, length-append head body)))))

-- A PUBACK that was written is read back, whatever follows it.
pub parse_bytes-encode_pub_ack :
    (c : Codec) (id : ℕ) (rest : Bytes) (b : Buffer)
    → IsValid b
    → view b ≡ []
    → id < 2 ^ 16
    → parse_bytes c (view (encode_pub_ack id b) ++ rest)
      ≡ some (record { result = ok; event = call c (puback_cb id); total_len = 4 })
unfolding parse_packet parse_puback dispatch packet_type_from_byte decode_remaining_length
parse_bytes-encode_pub_ack c id rest b v empty h =
    let e : id / 256 % 256 * 256 + id % 256 ≡ id = omega arith in
    rw ((encode_pub_ack-Extends id b v).behind, empty)
      (parse_bytes_cons c 0x40 (2 ∷ (htons id ++ rest)) (omega arith) ∙ rw e (ground arith))
