-- ===== src/Protocol/Codec/Filters.antt =====
-- MqttCodec::parseSubscribe: the loop over the topic filters, and the filters that a client writes.
use iot_distributed_gateway.Common.{
  ℕ, zero, suc, ◌+◌, ◌*◌, ◌/◌, ◌%◌, ◌^◌, ◌≤◌, ◌<◌, ◌≡◌, refl, ap, ◌∙◌, Bytes, List, [], ◌∷◌, ◌++◌,
  some, arith, length, inl, inr, ◌⊎◌, length-append, length-drop, append_assoc, append-nil, All,
}
use iot_distributed_gateway.Protocol.Types.{TopicFilter}
use iot_distributed_gateway.Protocol.Codec.{
  Codec, subscribe_cb, ok, call, htons, read_mqtt_string, subscribe_loop, parse_subscribe,
}
use iot_distributed_gateway.Protocol.Codec.Packets.{read_mqtt_string-htons}

length-read_mqtt_string : (p : Bytes) → length (read_mqtt_string p).1 ≤ length p
unfolding read_mqtt_string
length-read_mqtt_string [] = omega arith
length-read_mqtt_string (hi ∷ []) = omega arith
length-read_mqtt_string (hi ∷ lo ∷ p) = ground (arith, length-drop (hi * 256 + lo) p)

List-cases : (p : Bytes) → (p ≡ []) ⊎ ((x : ℕ) × (xs : Bytes) × (p ≡ x ∷ xs))
List-cases [] = inl refl
List-cases (x ∷ xs) = inr (x, xs, refl)

-- Any number of rounds that is at least the packet's length gives the same answer: the loop does not
-- run out of rounds.
subscribe_loop_enough :
    (r s : ℕ) (p : Bytes) (filters : List TopicFilter)
    → length p ≤ r
    → length p ≤ s
    → subscribe_loop r p filters ≡ subscribe_loop s p filters
unfolding subscribe_loop
subscribe_loop_enough zero s [] filters h k = refl
subscribe_loop_enough (suc r) s [] filters h k = refl
subscribe_loop_enough zero s (x ∷ xs) filters h k = absurd (omega arith)
subscribe_loop_enough (suc r) zero (x ∷ xs) filters h k = absurd (omega arith)
subscribe_loop_enough (suc r) (suc s) (x ∷ xs) filters h k =
    elim (List-cases (read_mqtt_string (x ∷ xs)).1) [
      | inl e ↦ rw (e, subscribe_loop) refl
      | inr (q, p, e) ↦
          let shorter : length p < length (x ∷ xs) =
            omega (arith, ap length e, length-read_mqtt_string (x ∷ xs)) in
          rw (e, subscribe_loop) (subscribe_loop_enough r s p _ (omega arith) (omega arith))
    ]

-- What a client writes for one filter, and for all.
abbrev pub filter_bytes : TopicFilter → Bytes
filter_bytes f = htons (length f.topic % 2 ^ 16) ++ (f.topic ++ (f.qos ∷ []))

abbrev pub filters_bytes : List TopicFilter → Bytes
filters_bytes [] = []
filters_bytes (f ∷ fs) = filter_bytes f ++ filters_bytes fs

abbrev pub IsShort : TopicFilter → Type 0
IsShort f = length f.topic < 2 ^ 16

subscribe_loop_step :
    (rounds : ℕ) (f : TopicFilter) (rest : Bytes) (filters : List TopicFilter)
    → IsShort f
    → subscribe_loop (suc rounds) (filter_bytes f ++ rest) filters
      ≡ subscribe_loop rounds rest (filters ++ (f ∷ []))
unfolding subscribe_loop
subscribe_loop_step rounds f rest filters h =
    let e : read_mqtt_string (filter_bytes f ++ rest) ≡ (f.topic, f.qos ∷ rest) =
      rw (append_assoc f.topic (f.qos ∷ []) rest)
        (read_mqtt_string-htons f.topic (f.qos ∷ rest) h) in
    rw (e, subscribe_loop)
      (ap
        (λ (q : Bytes × Bytes).
          subscribe_loop rounds rest (filters ++ (record { topic = q.0; qos = f.qos } ∷ [])))
        e)

length-filter_bytes :
    (f : TopicFilter) (rest : Bytes) → length rest < length (filter_bytes f ++ rest)
length-filter_bytes f rest =
    omega (arith, length-append (f.topic ++ (f.qos ∷ [])) rest, length-append f.topic (f.qos ∷ []))

subscribe_loop-filters_bytes :
    (rounds : ℕ) (fs filters : List TopicFilter)
    → All IsShort fs
    → length (filters_bytes fs) ≤ rounds
    → subscribe_loop rounds (filters_bytes fs) filters ≡ some (filters ++ fs)
unfolding subscribe_loop
subscribe_loop-filters_bytes rounds [] filters h k = simp append-nil
subscribe_loop-filters_bytes zero (f ∷ fs) filters h k =
    absurd (omega (arith, length-filter_bytes f (filters_bytes fs)))
subscribe_loop-filters_bytes (suc rounds) (f ∷ fs) filters h k =
    subscribe_loop_step rounds f (filters_bytes fs) filters h.0
    ∙ subscribe_loop-filters_bytes rounds fs (filters ++ (f ∷ [])) h.1
        (omega (arith, length-filter_bytes f (filters_bytes fs)))
    ∙ ap some (append_assoc filters (f ∷ []) fs)

-- The filters that a client wrote, behind the identifier, are the filters of the callback, in order.
pub parse_subscribe-filters_bytes :
    (c : Codec) (id : ℕ) (fs : List TopicFilter)
    → id < 2 ^ 16
    → All IsShort fs
    → parse_subscribe c (htons id ++ filters_bytes fs) ≡ (ok, call c (subscribe_cb id fs))
unfolding parse_subscribe
parse_subscribe-filters_bytes c id fs h k =
    let e : id / 256 % 256 * 256 + id % 256 ≡ id = omega arith in
    rw
      (
        subscribe_loop-filters_bytes (length (filters_bytes fs)) fs [] k (omega arith),
        parse_subscribe,
      )
      (rw e refl)
