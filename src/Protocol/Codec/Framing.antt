-- ===== src/Protocol/Codec/Framing.antt =====
-- MqttCodec::parse as a cutter of the byte stream: packets that stick together, and packets that
-- come in pieces.
use iot_distributed_gateway.Common.{
  ℕ, ◌+◌, ◌/◌, ◌≤◌, ◌<◌, ◌≡◌, ◌≢◌, refl, ap, ◌∙◌, Bytes, [], ◌∷◌, ◌++◌, false, none, some, ltb,
  arith, length, Bool-cases, Option-cases, inl, inr, ◌⊎◌, take, drop, length-append, length-drop,
  take-append_le, drop-append_le, bit_and,
}
use iot_distributed_gateway.Net.Buffer.{Buffer, IsValid, view}
use iot_distributed_gateway.Net.Buffer.View.{view-retrieve, length-view}
use iot_distributed_gateway.Protocol.Types.{
  PacketType, qos_of_bits, packet_type_from_byte, packet_flags,
}
use iot_distributed_gateway.Protocol.Codec.{
  Codec, incomplete, Parsed, decode_remaining_length, dispatch, parse_bytes, parse, parse_connect,
  connect_body, parse_publish, parse_puback, parse_subscribe, parse_packet, packet_id,
  read_mqtt_string, subscribe_loop,
}
use iot_distributed_gateway.Protocol.Codec.RemainingLength.{decode_loop-append}
use mathlib.Core.Option

parse_packet-append :
    (c : Codec) (first n rl : ℕ) (p more : Bytes) (r : Parsed)
    → parse_packet c first p n rl ≡ some r
    → (1 + rl + n ≤ length p + 1) × (parse_packet c first (p ++ more) n rl ≡ some r)
unfolding parse_packet
parse_packet-append c first n rl p more r e = elim (Bool-cases (ltb (length p + 1) (1 + rl + n))) [
  | inl short ↦ absurd (cc (rw short at e))
  | inr whole ↦
      let fits : 1 + rl + n ≤ length p + 1 = ground arith in
      let longer : ltb (length (p ++ more) + 1) (1 + rl + n) ≡ false =
        ground (arith, length-append p more) in
      let same : take n (drop rl (p ++ more)) ≡ take n (drop rl p) =
        ap (take n) (drop-append_le rl p more (omega arith))
        ∙ take-append_le n (drop rl p) more (omega (arith, length-drop rl p)) in
      (fits, rw longer (rw same (rw whole at e)))
]

decode-append :
    (p more : Bytes)
    → (decode_remaining_length p).1 ≤ length p
    → decode_remaining_length (p ++ more) ≡ decode_remaining_length p
unfolding decode_remaining_length
decode-append p more h = decode_loop-append p more 0 0 1 (omega arith)

-- The packet at the front of a stream is the same, whatever follows it.
pub parse_bytes-append :
    (c : Codec) (xs more : Bytes) (r : Parsed)
    → parse_bytes c xs ≡ some r
    → parse_bytes c (xs ++ more) ≡ some r
unfolding parse_bytes
parse_bytes-append c [] more r e = cc
parse_bytes-append c (x ∷ []) more r e = cc
parse_bytes-append c (x ∷ y ∷ xs) more r e =
    let d = decode_remaining_length (y ∷ xs) in
    let (fits, q) = parse_packet-append c x d.0 d.1 (y ∷ xs) more r e in
    rw (decode-append (y ∷ xs) more (omega arith)) q

pub total_len-le :
    (c : Codec) (xs : Bytes) (r : Parsed) → parse_bytes c xs ≡ some r → r.total_len ≤ length xs
unfolding parse_bytes
total_len-le c [] r e = cc
total_len-le c (x ∷ []) r e = cc
total_len-le c (x ∷ y ∷ xs) r e = ground arith

-- The bytes of the packet at the front: its header byte, the bytes of its length field, and as many more
-- as that field says.
abbrev pub extent : Bytes → ℕ
extent xs =
    let length_field = decode_remaining_length (drop 1 xs) in 1 + length_field.1 + length_field.0

total_len-extent :
    (c : Codec) (xs : Bytes) (r : Parsed) → parse_bytes c xs ≡ some r → r.total_len ≡ extent xs
unfolding parse_bytes parse_packet
total_len-extent c [] r e = cc
total_len-extent c (x ∷ []) r e = cc
total_len-extent c (x ∷ y ∷ xs) r e = ground arith

-- A proper prefix of a packet is answered by INCOMPLETE.
parse_bytes_prefix :
    (c : Codec) (front back : Bytes) (r : Parsed)
    → parse_bytes c (front ++ back) ≡ some r
    → length front < r.total_len
    → parse_bytes c front ≡ none
parse_bytes_prefix c front back r e h = elim (Option-cases (parse_bytes c front)) [
  | inl n ↦ n
  | inr (q, p) ↦ absurd (omega (arith, same q p, total_len-le c front q p))
]
  where
    same : (q : Parsed) → parse_bytes c front ≡ some q → q.total_len ≡ r.total_len
    same q p = ground (arith, parse_bytes-append c front back q p)

-- On a well-formed buffer parse never aborts: either no whole packet stands in front, INCOMPLETE is the
-- answer and the buffer is left as it is, or it answers what the reader of bytes makes of the readable ones,
-- and the buffer is left well-formed without exactly that packet's bytes: the header byte, the length field,
-- and as many bytes as the field says.
pub parse_lem :
    (c : Codec) (buf : Buffer)
    → IsValid buf
    → ((parse_bytes c (view buf) ≡ none) × (parse c buf ≡ some (incomplete, none, buf)))
      ⊎ ((r : Parsed) × (buf' : Buffer) × (parse_bytes c (view buf) ≡ some r)
          × (parse c buf ≡ some (r.result, r.event, buf'))
          × (view buf' ≡ drop r.total_len (view buf))
          × (r.total_len ≡ extent (view buf))
          × IsValid buf')
unfolding parse
parse_lem c buf v = elim (Option-cases (parse_bytes c (view buf))) [
  | inl n ↦ inl (n, rw (n, parse) refl)
  | inr (r, e) ↦
      let (buf', s, d, w) =
        view-retrieve r.total_len buf v
          (omega (arith, total_len-le c (view buf) r e, length-view buf v)) in
      inr (
        r,
        buf',
        e,
        rw (e, parse) (rw (s, Option.map) refl),
        d,
        total_len-extent c (view buf) r e,
        w,
      )
]

connect_body-ne-incomplete : (c : Codec) (name p : Bytes) → (connect_body c name p).0 ≢ incomplete
unfolding connect_body
connect_body-ne-incomplete c name (l ∷ f ∷ hi ∷ lo ∷ p) = λ e. cc
connect_body-ne-incomplete c name _ = λ e. cc

parse_publish-ne-incomplete :
    (c : Codec) (flags : ℕ) (bytes : Bytes) → (parse_publish c flags bytes).0 ≢ incomplete
unfolding parse_publish
parse_publish-ne-incomplete c flags bytes =
    elim (Option-cases
      (packet_id (qos_of_bits (bit_and (flags / 2) 0x03)) (read_mqtt_string bytes).1)) [
        | inl n ↦ rw (n, parse_publish) (λ e. cc)
        | inr (r, s) ↦ rw (s, parse_publish) (λ e. cc)
      ]

parse_subscribe-ne-incomplete :
    (c : Codec) (bytes : Bytes) → (parse_subscribe c bytes).0 ≢ incomplete
unfolding parse_subscribe
parse_subscribe-ne-incomplete c (hi ∷ lo ∷ p) =
    elim (Option-cases (subscribe_loop (length p) p [])) [
      | inl n ↦ rw (n, parse_subscribe) (λ e. cc)
      | inr (r, s) ↦ rw (s, parse_subscribe) (λ e. cc)
    ]
parse_subscribe-ne-incomplete c _ = λ e. cc

parse_puback-ne-incomplete : (c : Codec) (bytes : Bytes) → (parse_puback c bytes).0 ≢ incomplete
unfolding parse_puback
parse_puback-ne-incomplete c (hi ∷ lo ∷ p) = λ e. cc
parse_puback-ne-incomplete c _ = λ e. cc

dispatch-ne-incomplete :
    (c : Codec) (type : PacketType) (flags : ℕ) (bytes : Bytes)
    → (dispatch c type flags bytes).0 ≢ incomplete
unfolding dispatch parse_connect
dispatch-ne-incomplete c PacketType.connect flags bytes = connect_body-ne-incomplete c _ _
dispatch-ne-incomplete c PacketType.publish flags bytes = parse_publish-ne-incomplete c flags bytes
dispatch-ne-incomplete c PacketType.puback flags bytes = parse_puback-ne-incomplete c bytes
dispatch-ne-incomplete c PacketType.subscribe flags bytes = parse_subscribe-ne-incomplete c bytes
dispatch-ne-incomplete c PacketType.pingreq flags bytes = λ e. cc
dispatch-ne-incomplete c PacketType.disconnect flags bytes = λ e. cc
dispatch-ne-incomplete c _ flags bytes = λ e. cc

-- A packet that is all there is never answered by INCOMPLETE, and it takes a byte at least.
pub parse_bytes-ne-incomplete :
    (c : Codec) (xs : Bytes) (r : Parsed)
    → parse_bytes c xs ≡ some r
    → (r.result ≢ incomplete) × (1 ≤ r.total_len)
unfolding parse_bytes parse_packet
parse_bytes-ne-incomplete c [] r e = cc
parse_bytes-ne-incomplete c (x ∷ []) r e = cc
parse_bytes-ne-incomplete c (x ∷ y ∷ xs) r e =
    let d = decode_remaining_length (y ∷ xs) in
    let data' = take d.0 (drop d.1 (y ∷ xs)) in
    ground (arith, dispatch-ne-incomplete c (packet_type_from_byte x) (packet_flags x) data')
