-- ===== src/Protocol/Codec/RemainingLength.antt =====
-- MqttCodec::decodeRemainingLength, on the bytes of encodeRemainingLength and on any bytes.
use iot_distributed_gateway.Common.{
  ℕ, zero, suc, ◌+◌, ◌*◌, ◌/◌, ◌%◌, ◌^◌, ◌≤◌, ◌<◌, ◌≡◌, refl, ap, Bytes, [], ◌∷◌, ◌++◌, bit_and,
  bit_or, ltb, ◌==◌, ==_iff, arith, length, Bool-cases, inl, inr, All,
}
use iot_distributed_gateway.Protocol.Codec.{decode_loop, decode_remaining_length}
use iot_distributed_gateway.Protocol.Codec.Extends.{length_bytes}
use iot_distributed_gateway.Common.Every.{every, law_at}
use native.Mathlib.Nat.{div-add-mod}

-- A law of one byte is a check of its 256 values.
pub low_bits : (b : ℕ) → b < 256 → bit_and b 0x7f ≡ b % 128
unfolding every
low_bits b h = (==_iff _ _).0 (law_at (λ x. bit_and x 0x7f == x % 128) b 256 h refl)

pub top_bit : (b : ℕ) → b < 256 → bit_and b 0x80 ≡ b / 128 * 128
unfolding every
top_bit b h = (==_iff _ _).0 (law_at (λ x. bit_and x 0x80 == x / 128 * 128) b 256 h refl)

pub set_top_bit : (b : ℕ) → b < 128 → bit_or b 0x80 ≡ b + 128
unfolding every
set_top_bit b h = (==_iff _ _).0 (law_at (λ x. bit_or x 0x80 == x + 128) b 128 h refl)

abbrev pub IsByte : ℕ → Type 0
IsByte b = b < 256

split_group : (len m : ℕ) → len % 128 * m + len / 128 * (m * 128) ≡ len * m
split_group len m = omega (arith, ap (λ (t : ℕ). t * m) (div-add-mod len 128))

decode_loop-length_bytes :
    (k len i value m : ℕ) (rest : Bytes)
    → len < 128 ^ suc k
    → i + suc k ≤ 4
    → value + len * m < 2 ^ 32
    → decode_loop (length_bytes (suc k) len ++ rest) i value m
      ≡ (value + len * m, i + length (length_bytes (suc k) len))
unfolding decode_loop length_bytes
decode_loop-length_bytes zero len i value m rest h hi hv = ground (arith, low_bits len, top_bit len)
decode_loop-length_bytes (suc k) len i value m rest h hi hv =
    elim (Bool-cases (ltb 0 (len / 128))) [
      | inl more ↦ rw more (
          ground (
            arith,
            set_top_bit (len % 128),
            low_bits (len % 128 + 128),
            top_bit (len % 128 + 128),
            split_group len m,
            decode_loop-length_bytes k (len / 128) (i + 1) (value + len % 128 * m) (m * 128) rest,
          ))
      | inr last ↦ rw last (ground (arith, low_bits (len % 128), top_bit (len % 128)))
    ]

pub length_bytes_enough :
    (k j len : ℕ)
    → len < 128 ^ suc k
    → len < 128 ^ suc j
    → length_bytes (suc k) len ≡ length_bytes (suc j) len
unfolding length_bytes
length_bytes_enough zero zero len h h' = refl
length_bytes_enough zero (suc j) len h h' = ground arith
length_bytes_enough (suc k) zero len h h' = ground arith
length_bytes_enough (suc k) (suc j) len h h' =
    ground (arith, length_bytes_enough k j (len / 128) (omega arith) (omega arith))

-- A number below 2 ^ 28 is read back from its bytes, which are one to four, and whatever follows is
-- left alone.
pub decode-length_bytes :
    (len : ℕ) (rest : Bytes)
    → len < 2 ^ 28
    → (decode_remaining_length (length_bytes 5 len ++ rest) ≡ (len, length (length_bytes 5 len)))
unfolding decode_remaining_length
decode-length_bytes len rest h = rw (length_bytes_enough 4 3 len (omega arith) (omega arith)) (
    rw (decode_loop-length_bytes 3 len 0 0 1 rest (omega arith) (omega arith) (omega arith))
      (ground arith))

pub length-length_bytes :
    (k len : ℕ)
    → (1 ≤ length (length_bytes (suc k) len)) × (length (length_bytes (suc k) len) ≤ suc k)
unfolding length_bytes
length-length_bytes zero len = ground arith
length-length_bytes (suc k) len = ground (arith, length-length_bytes k (len / 128))

-- The multiplier with `j` bytes to go.
abbrev weight : ℕ → ℕ
weight zero = 2 ^ 28
weight (suc zero) = 2 ^ 21
weight (suc (suc zero)) = 2 ^ 14
weight (suc (suc (suc zero))) = 2 ^ 7
weight (suc (suc (suc (suc n)))) = 1

group_lt :
    (x value j : ℕ)
    → x < 256
    → j < 4
    → value < weight (suc j)
    → (value + bit_and x 0x7f * weight (suc j)) % 2 ^ 32 < weight j
group_lt x value zero b h v = ground (arith, low_bits x b)
group_lt x value (suc zero) b h v = ground (arith, low_bits x b)
group_lt x value (suc (suc zero)) b h v = ground (arith, low_bits x b)
group_lt x value (suc (suc (suc zero))) b h v = ground (arith, low_bits x b)
group_lt x value (suc (suc (suc (suc j)))) b h v = absurd (omega arith)

weight-suc : (j : ℕ) → j < 4 → weight (suc j) * 128 ≡ weight j
weight-suc zero h = refl
weight-suc (suc zero) h = refl
weight-suc (suc (suc zero)) h = refl
weight-suc (suc (suc (suc zero))) h = refl
weight-suc (suc (suc (suc (suc j)))) h = absurd (omega arith)

weight_le : (j : ℕ) → weight j ≤ 2 ^ 28
weight_le zero = omega arith
weight_le (suc zero) = omega arith
weight_le (suc (suc zero)) = omega arith
weight_le (suc (suc (suc zero))) = omega arith
weight_le (suc (suc (suc (suc j)))) = omega arith

decode_loop_bounds :
    (bytes : Bytes) (i j value m : ℕ)
    → All IsByte bytes
    → i + j ≡ 4
    → m ≡ weight j
    → value < weight j
    → ((decode_loop bytes i value m).0 < 2 ^ 28)
      × (i < (decode_loop bytes i value m).1)
      × ((decode_loop bytes i value m).1 ≤ 5)
unfolding decode_loop
decode_loop_bounds [] i j value m b e p h = omega (arith, weight_le j)
decode_loop_bounds (x ∷ bytes) i zero value m b e p h = ground arith
decode_loop_bounds (x ∷ bytes) i (suc j) value m b e p h = rw p (
    ground (
      arith,
      weight_le j,
      group_lt x value j b.0 (omega arith) h,
      decode_loop_bounds bytes (i + 1) j ((value + bit_and x 0x7f * weight (suc j)) % 2 ^ 32)
          (weight (suc j) * 128) b.1 (omega arith) (weight-suc j (omega arith))
          (group_lt x value j b.0 (omega arith) h),
    ))

-- Of any bytes the decoder makes a number below 2 ^ 28, and claims one to five of them.
decode_remaining_length_bounds :
    (bytes : Bytes)
    → All IsByte bytes
    → ((decode_remaining_length bytes).0 < 2 ^ 28)
      × (1 ≤ (decode_remaining_length bytes).1)
      × ((decode_remaining_length bytes).1 ≤ 5)
unfolding decode_remaining_length
decode_remaining_length_bounds bytes b = decode_loop_bounds bytes 0 4 0 1 b refl refl (omega arith)

-- The loop does not look behind the bytes that it takes.
pub decode_loop-append :
    (bytes more : Bytes) (i value m : ℕ)
    → (decode_loop bytes i value m).1 ≤ i + length bytes
    → decode_loop (bytes ++ more) i value m ≡ decode_loop bytes i value m
unfolding decode_loop
decode_loop-append [] more i value m h = absurd (omega arith)
decode_loop-append (x ∷ bytes) more i value m h =
    ground (
      arith,
      decode_loop-append bytes more (i + 1) ((value + bit_and x 0x7f * m) % 2 ^ 32) (m * 128),
    )

-- Where every byte at hand carries the continuation flag, the decoder claims one more than there are.
decode_loop_runs_out :
    (bytes : Bytes) (i value m : ℕ)
    → All (λ x. (x < 256) × (128 ≤ x)) bytes
    → i + length bytes ≤ 4
    → (decode_loop bytes i value m).1 ≡ i + length bytes + 1
unfolding decode_loop
decode_loop_runs_out [] i value m b h = omega arith
decode_loop_runs_out (x ∷ bytes) i value m b h = ground (
  arith,
  top_bit x b.0.0,
  decode_loop_runs_out bytes (i + 1) ((value + bit_and x 0x7f * m) % 2 ^ 32) (m * 128) b.1,
)

-- Up to four bytes that all carry the continuation flag: the decoder claims one byte more than it
-- looked at.
decode_remaining_length_runs_out :
    (bytes : Bytes)
    → All (λ x. (x < 256) × (128 ≤ x)) bytes
    → length bytes ≤ 4
    → (decode_remaining_length bytes).1 ≡ length bytes + 1
unfolding decode_remaining_length
decode_remaining_length_runs_out bytes b h =
    omega (arith, decode_loop_runs_out bytes 0 0 1 b (omega arith))
