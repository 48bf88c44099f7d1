-- ===== src/Net/Buffer/Space.antt =====
-- The indices and the room of a buffer, and the move of Buffer::makeSpace.
use iot_distributed_gateway.Common.{
  ◌≢◌, ℕ, ◌+◌, ◌-◌, ◌≤◌, ◌<◌, ◌≡◌, refl, Bytes, some, arith, ltb, length, Bool-cases, inl, inr,
  length-replicate,
}
use iot_distributed_gateway.Net.Buffer.Slices.{slice, length-write, length-resize}
use iot_distributed_gateway.Net.Buffer.{
  Buffer, IsValid, cheap_prepend, new, readable_bytes, writable_bytes, prependable_bytes, retrieve,
  retrieve_all, make_space, ensure_writable_bytes, append, prepend,
}

pub new-IsValid : (n : ℕ) → IsValid (new n)
unfolding new
new-IsValid n = ground (arith, length-replicate {0} (8 + n) (let z : ℕ = 0 in z))

pub retrieve_all-IsValid : (b : Buffer) → IsValid b → IsValid (retrieve_all b)
unfolding retrieve_all
retrieve_all-IsValid b v = ground arith

pub retrieve-IsValid : (len : ℕ) (b b' : Buffer) → IsValid b → retrieve len b ≡ some b' → IsValid b'
unfolding retrieve
retrieve-IsValid len b b' v e = ground arith

pub make_space-IsValid :
    (len : ℕ) (b : Buffer) → IsValid b → writable_bytes b < len → IsValid (make_space len b)
unfolding make_space
make_space-IsValid len b v h =
    elim (Bool-cases (ltb (writable_bytes b + prependable_bytes b) (len + cheap_prepend))) [
      | inl e ↦ rw e (ground (arith, length-resize (b.writer_index + len) b.buffer))
      | inr e ↦ rw e (
          ground
            (arith, length-write 8 (slice b.reader_index (readable_bytes b) b.buffer) b.buffer))
    ]

pub ensure_writable_bytes-IsValid :
    (len : ℕ) (b : Buffer) → IsValid b → IsValid (ensure_writable_bytes len b)
unfolding ensure_writable_bytes
ensure_writable_bytes-IsValid len b v = ground (arith, make_space-IsValid len b v)

make_space_room : (len : ℕ) (b : Buffer) → IsValid b → len ≤ writable_bytes (make_space len b)
unfolding make_space
make_space_room len b v =
    elim (Bool-cases (ltb (writable_bytes b + prependable_bytes b) (len + cheap_prepend))) [
      | inl e ↦ rw e (omega (arith, length-resize (b.writer_index + len) b.buffer))
      | inr e ↦ rw e (
          ground
            (arith, length-write 8 (slice b.reader_index (readable_bytes b) b.buffer) b.buffer))
    ]

-- After ensureWritableBytes(len), len bytes can be written behind the readable ones.
pub ensure_writable_bytes_room :
    (len : ℕ) (b : Buffer) → IsValid b → len ≤ writable_bytes (ensure_writable_bytes len b)
unfolding ensure_writable_bytes
ensure_writable_bytes_room len b v = ground (arith, make_space_room len b v)

pub append-IsValid : (xs : Bytes) (b : Buffer) → IsValid b → IsValid (append xs b)
unfolding append
append-IsValid xs b v =
    let b' = ensure_writable_bytes (length xs) b in
    ground (
      arith,
      ensure_writable_bytes-IsValid (length xs) b v,
      ensure_writable_bytes_room (length xs) b v,
      length-write b'.writer_index xs b'.buffer,
    )

pub prepend-IsValid : (xs : Bytes) (b b' : Buffer) → IsValid b → prepend xs b ≡ some b' → IsValid b'
unfolding prepend
prepend-IsValid xs b b' v e = ground (arith, length-write (b.reader_index - length xs) xs b.buffer)

-- Where ensureWritableBytes moves the readable bytes instead of growing the vector, they start
-- behind the place that they are moved to, so that the forward copy of overlapping ranges is
-- defined; and they end inside the vector.
make_space_moves_down :
    (len : ℕ) (b : Buffer)
    → IsValid b
    → writable_bytes b < len
    → (make_space len b).reader_index ≢ b.reader_index
    → (cheap_prepend < b.reader_index)
      × ((make_space len b).writer_index + len ≤ length b.buffer)
      × (length (make_space len b).buffer ≡ length b.buffer)
unfolding make_space
make_space_moves_down len b v h moved =
    elim (Bool-cases (ltb (writable_bytes b + prependable_bytes b) (len + cheap_prepend))) [
      | inl e ↦ absurd (moved (rw e refl))
      | inr e ↦ rw e (
          ground
            (arith, length-write 8 (slice b.reader_index (readable_bytes b) b.buffer) b.buffer))
    ]
