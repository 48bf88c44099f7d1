-- ===== src/Protocol/Codec/Tests.antt =====
-- Packets that are parsed, for the theorems about the codec.
use iot_distributed_gateway.Common.{
  ℕ, ◌^◌, ◌≤◌, ◌<◌, ◌≡◌, ◌≢◌, ◌⊎◌, refl, List, [], ◌∷◌, ◌++◌, true, none, some, arith, length, drop,
  All,
}
use iot_distributed_gateway.Net.Buffer.{Buffer, view, IsValid, append}
use iot_distributed_gateway.Net.Buffer.Space.{new-IsValid, append-IsValid}
use iot_distributed_gateway.Net.Buffer.View.{view-new}
use iot_distributed_gateway.Net.Buffer
use iot_distributed_gateway.Protocol.Types.{QoS, TopicFilter, packet_type_from_byte}
use iot_distributed_gateway.Protocol.Codec.{
  Codec, ok, incomplete, Parsed, call, parse, parse_bytes, decode_remaining_length, dispatch,
  parse_subscribe, htons, encode_publish, publish_cb, subscribe_cb, pingreq_cb,
}
use iot_distributed_gateway.Protocol.Codec.RemainingLength.{IsByte}
use iot_distributed_gateway.Protocol.Codec.Framing.{extent, parse_lem, parse_bytes-ne-incomplete}
use iot_distributed_gateway.Protocol.Codec.Packets.{parse_bytes-encode_publish, sent_id}
use iot_distributed_gateway.Protocol.Codec.Filters.{
  filters_bytes, IsShort, parse_subscribe-filters_bytes,
}

abbrev all_set : Codec
all_set = record {
  has_connect_cb = true;
  has_publish_cb = true;
  has_subscribe_cb = true;
  has_pingreq_cb = true;
  has_disconnect_cb = true;
  has_puback_cb = true;
}

abbrev empty_buffer : Buffer
empty_buffer = Buffer.new 64

-- A ping request, as it is parsed.
abbrev pinged : Parsed
pinged = record { result = ok; event = some pingreq_cb; total_len = 2 }

ping : parse_bytes all_set (0xc0 ∷ 0 ∷ []) ≡ some pinged
unfolding parse_bytes decode_remaining_length dispatch packet_type_from_byte
ping = refl

small_id : 7 < 2 ^ 16
small_id = omega arith

parse_bytes-encode_publish_example :
    parse_bytes all_set (
      view (encode_publish (97 ∷ []) (1 ∷ 2 ∷ []) QoS.at_least_once 7 true empty_buffer)
      ++ (0xc0 ∷ 0 ∷ []))
    ≡ some (record {
      result = ok;
      event =
          call all_set (
            publish_cb (97 ∷ []) (1 ∷ 2 ∷ []) QoS.at_least_once true (sent_id QoS.at_least_once 7));
      total_len =
          length
            (view (encode_publish (97 ∷ []) (1 ∷ 2 ∷ []) QoS.at_least_once 7 true empty_buffer));
    })
parse_bytes-encode_publish_example =
    parse_bytes-encode_publish all_set (97 ∷ []) (1 ∷ 2 ∷ []) (0xc0 ∷ 0 ∷ []) QoS.at_least_once 7
      true empty_buffer (new-IsValid 64) (view-new 64) (omega arith) (omega arith) small_id

abbrev ping_buffer : Buffer
ping_buffer = append (0xc0 ∷ 0 ∷ 0xc0 ∷ []) empty_buffer

parse_lem_example :
    ((parse_bytes all_set (view ping_buffer) ≡ none)
      × (parse all_set ping_buffer ≡ some (incomplete, none, ping_buffer)))
    ⊎ ((r : Parsed) × (buf' : Buffer) × (parse_bytes all_set (view ping_buffer) ≡ some r)
        × (parse all_set ping_buffer ≡ some (r.result, r.event, buf'))
        × (view buf' ≡ drop r.total_len (view ping_buffer))
        × (r.total_len ≡ extent (view ping_buffer))
        × IsValid buf')
parse_lem_example =
    parse_lem all_set ping_buffer
      (append-IsValid (0xc0 ∷ 0 ∷ 0xc0 ∷ []) empty_buffer (new-IsValid 64))

one_byte : length {A = ℕ} (0xc0 ∷ []) < pinged.total_len
one_byte = omega arith

parse_bytes-ne-incomplete_example : (pinged.result ≢ incomplete) × (1 ≤ pinged.total_len)
parse_bytes-ne-incomplete_example = parse_bytes-ne-incomplete all_set (0xc0 ∷ 0 ∷ []) pinged ping

two_bytes : All IsByte (0x80 ∷ 0x01 ∷ [])
two_bytes = (omega arith, (omega arith, tt))

two_flagged : All (λ x. (x < 256) × (128 ≤ x)) (0x80 ∷ 0xff ∷ [])
two_flagged = ((omega arith, omega arith), ((omega arith, omega arith), tt))

abbrev two_filters : List TopicFilter
two_filters = record { topic = 97 ∷ []; qos = 1 } ∷ record { topic = 98 ∷ 99 ∷ []; qos = 0 } ∷ []

two-IsShort : All IsShort two_filters
two-IsShort = (omega arith, (omega arith, tt))

parse_subscribe-filters_bytes_example :
    parse_subscribe all_set (htons 7 ++ filters_bytes two_filters)
    ≡ (ok, call all_set (subscribe_cb 7 two_filters))
parse_subscribe-filters_bytes_example =
    parse_subscribe-filters_bytes all_set 7 two_filters small_id two-IsShort
