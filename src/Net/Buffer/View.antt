-- ===== src/Net/Buffer/View.antt =====
-- A buffer as a queue of bytes: each operation in terms of the readable bytes.
use iot_distributed_gateway.Common.{
  ℕ, ◌+◌, ◌-◌, ◌≤◌, ◌<◌, ◌≡◌, refl, sym, ap, ◌∙◌, Bytes, [], ◌++◌, none, some, arith, ltb, length,
  Bool-cases, inl, inr, take, drop, drop_all,
}
use iot_distributed_gateway.Net.Buffer.Slices.{
  slice, write, length-write, length-slice, slice-write_end, slice-write_front, slice-write_self,
  slice-resize, drop-slice, take-slice,
}
use iot_distributed_gateway.Net.Buffer.{
  Buffer, IsValid, cheap_prepend, new, view, readable_bytes, writable_bytes, prependable_bytes,
  retrieve, retrieve_all, retrieve_as_string, retrieve_until, make_space, ensure_writable_bytes,
  append, prepend,
}
use iot_distributed_gateway.Net.Buffer.Space.{
  ensure_writable_bytes-IsValid, ensure_writable_bytes_room,
}

pub length-view : (b : Buffer) → IsValid b → length (view b) ≡ readable_bytes b
unfolding view
length-view b v = ground (arith, length-slice b.reader_index (readable_bytes b) b.buffer)

pub view-new : (n : ℕ) → view (new n) ≡ []
unfolding view new slice
view-new n = refl

view-make_space :
    (len : ℕ) (b : Buffer) → IsValid b → writable_bytes b < len → view (make_space len b) ≡ view b
unfolding view make_space
view-make_space len b v h =
    elim (Bool-cases (ltb (writable_bytes b + prependable_bytes b) (len + cheap_prepend))) [
      | inl e ↦ rw e (
          slice-resize b.reader_index (readable_bytes b) (b.writer_index + len) b.buffer
            (ground arith) (ground arith))
      | inr e ↦ rw e (
          slice-write_self 8 _ (slice b.reader_index (readable_bytes b) b.buffer) b.buffer
            (ground (arith, length-slice b.reader_index (readable_bytes b) b.buffer))
            (ground (arith, length-slice b.reader_index (readable_bytes b) b.buffer)))
    ]

view-ensure_writable_bytes :
    (len : ℕ) (b : Buffer) → IsValid b → view (ensure_writable_bytes len b) ≡ view b
unfolding ensure_writable_bytes
view-ensure_writable_bytes len b v = ground (arith, view-make_space len b v)

-- append puts its bytes behind the readable ones, also where it grows the vector or moves them.
pub view-append : (xs : Bytes) (b : Buffer) → IsValid b → view (append xs b) ≡ view b ++ xs
unfolding view append
view-append xs b v =
    let b' = ensure_writable_bytes (length xs) b in
    let w = ensure_writable_bytes-IsValid (length xs) b v in
    let room = ensure_writable_bytes_room (length xs) b v in
    slice-write_end b'.reader_index (readable_bytes b') b'.writer_index _ xs b'.buffer (omega arith)
      (omega arith) (omega arith)
    ∙ ap (λ (s : Bytes). s ++ xs) (view-ensure_writable_bytes (length xs) b v)

view-retrieve_all : (b : Buffer) → view (retrieve_all b) ≡ []
unfolding view retrieve_all slice
view-retrieve_all b = refl

-- retrieve takes the front of the readable bytes off, whenever there are enough of them.
pub view-retrieve :
    (len : ℕ) (b : Buffer)
    → IsValid b
    → len ≤ readable_bytes b
    → (b' : Buffer) × (retrieve len b ≡ some b') × (view b' ≡ drop len (view b)) × IsValid b'
unfolding retrieve view
view-retrieve len b v h = elim (Bool-cases (ltb len (readable_bytes b))) [
  | inl e ↦ (
    record b { reader_index = b.reader_index + len },
    ground arith,
    ap (λ (k : ℕ). slice (b.reader_index + len) k b.buffer) (omega arith)
        ∙ sym (
            drop-slice b.reader_index len (readable_bytes b - len) (readable_bytes b) b.buffer
              (omega arith)),
    ground arith,
  )
  | inr e ↦ (
    retrieve_all b,
    ground arith,
    view-retrieve_all b ∙ sym (drop_all len (view b) (ground (arith, length-view b v))),
    ground arith,
  )
]

-- retrieve aborts when fewer bytes are readable.
pub retrieve_aborts : (len : ℕ) (b : Buffer) → readable_bytes b < len → retrieve len b ≡ none
unfolding retrieve
retrieve_aborts len b h = ground arith

-- prepend puts its bytes in front of the readable ones, as long as the reserve lasts.
pub view-prepend :
    (xs : Bytes) (b : Buffer)
    → IsValid b
    → length xs ≤ prependable_bytes b
    → (b' : Buffer) × (prepend xs b ≡ some b') × (view b' ≡ xs ++ view b) × IsValid b'
unfolding prepend view
view-prepend xs b v h = (
  record b {
    buffer = write (b.reader_index - length xs) xs b.buffer;
    reader_index = b.reader_index - length xs;
  },
  ground arith,
  slice-write_front (b.reader_index - length xs) b.reader_index _ (readable_bytes b) xs b.buffer
      (omega arith) (omega arith) (omega arith),
  ground (arith, length-write (b.reader_index - length xs) xs b.buffer),
)

-- retrieveAsString returns the front of the readable bytes and leaves the others.
view-retrieve_as_string :
    (len : ℕ) (b : Buffer)
    → IsValid b
    → len ≤ readable_bytes b
    → (b' : Buffer) × (retrieve_as_string len b ≡ some (take len (view b), b'))
      × (view b' ≡ drop len (view b))
      × IsValid b'
unfolding retrieve_as_string view
view-retrieve_as_string len b v h =
    let (b', e, s, v') = view-retrieve len b v h in
    (
      b',
      rw (e, retrieve_as_string)
          (ap (λ (t : Bytes). some (t, b'))
            (sym (take-slice b.reader_index len (readable_bytes b) b.buffer h))),
      s,
      v',
    )

-- retrieveUntil(peek() + n) is retrieve(n).
pub retrieve_until-retrieve :
    (n : ℕ) (b : Buffer)
    → IsValid b
    → n ≤ readable_bytes b
    → retrieve_until (b.reader_index + n) b ≡ retrieve n b
unfolding retrieve_until
retrieve_until-retrieve n b v h =
    let e : b.reader_index + n - b.reader_index ≡ n = omega arith in rw e (ground arith)
