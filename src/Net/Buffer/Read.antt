-- ===== src/Net/Buffer/Read.antt =====
-- Buffer::readFd: one readv into the writable bytes and a stack buffer of 64K.
use iot_distributed_gateway.Common.{
  ℕ, ◌+◌, ◌≡◌, refl, ap, ◌∙◌, Bytes, ◌++◌, arith, ltb, leb, length, true, false, Bool-cases, inl,
  inr, take, drop, length-take, take-append-drop, take_all, if◌then◌else◌, append_assoc,
}
use iot_distributed_gateway.Net.Buffer.Slices.{write, length-write, slice-write_end}
use iot_distributed_gateway.Net.Buffer.{
  Buffer, IsValid, view, readable_bytes, writable_bytes, append,
}
use iot_distributed_gateway.Net.Buffer.View.{view-append}
use iot_distributed_gateway.Net.Buffer.Space.{append-IsValid}

-- What readv answers: the bytes that it stored, or an errno.
pub data ReadOutcome : Type 0 where
  got : Bytes → ReadOutcome
  failed : ℕ → ReadOutcome

abbrev pub extra_size : ℕ
extra_size = 65536

-- The room that the call offers: iovcnt is 2 where the buffer has less than the stack buffer.
unfoldable pub offered : Buffer → ℕ
offered b =
    if ltb (writable_bytes b) extra_size then writable_bytes b + extra_size else writable_bytes b

-- The kernel fills the writable bytes first. The result is the buffer with the count or the errno.
unfoldable pub read_fd : ReadOutcome → Buffer → Buffer × ReadOutcome
read_fd (failed err) b = (b, failed err)
read_fd (got bs) b =
    let stored = write b.writer_index (take (writable_bytes b) bs) b.buffer in
    (
      (if leb (length bs) (writable_bytes b)
          then record b { buffer = stored; writer_index = b.writer_index + length bs }
          else append (drop (writable_bytes b) bs)
              (record b { buffer = stored; writer_index = length b.buffer })),
      got bs,
    )

module _ (bs : Bytes) (b : Buffer) (v : IsValid b) where
  filled : Buffer
  filled = record b {
    buffer = write b.writer_index (take (writable_bytes b) bs) b.buffer;
    writer_index = b.writer_index + length (take (writable_bytes b) bs);
  }

  filled-IsValid : IsValid filled
  unfolding filled
  filled-IsValid = ground (
    arith,
    length-write b.writer_index (take (writable_bytes b) bs) b.buffer,
    length-take (writable_bytes b) bs,
  )

  view-filled : view filled ≡ view b ++ take (writable_bytes b) bs
  unfolding filled view
  view-filled =
      slice-write_end b.reader_index (readable_bytes b) b.writer_index _
        (take (writable_bytes b) bs) b.buffer (omega arith) (omega arith)
        (omega (arith, length-take (writable_bytes b) bs))

  short : leb (length bs) (writable_bytes b) ≡ true → (read_fd (got bs) b).0 ≡ filled
  unfolding read_fd filled
  short e =
      let k : take (writable_bytes b) bs ≡ bs = take_all (writable_bytes b) bs (ground arith) in
      rw e (rw k refl)

  long :
      leb (length bs) (writable_bytes b) ≡ false
      → (read_fd (got bs) b).0 ≡ append (drop (writable_bytes b) bs) filled
  unfolding read_fd filled
  long e =
      let k : length b.buffer ≡ b.writer_index + length (take (writable_bytes b) bs) =
        ground (arith, length-take (writable_bytes b) bs) in
      rw e (
        ap
          (λ (w : ℕ). append (drop (writable_bytes b) bs) (record b {
            buffer = write b.writer_index (take (writable_bytes b) bs) b.buffer;
            writer_index = w;
          }))
          k)

  -- What readv stored comes behind the readable bytes in order, also where it ran over into the
  -- stack buffer, and the buffer stays well formed.
  pub view-read_fd : (view (read_fd (got bs) b).0 ≡ view b ++ bs) × IsValid (read_fd (got bs) b).0
  view-read_fd = elim (Bool-cases (leb (length bs) (writable_bytes b))) [
    | inl e ↦ rw (short e) (
      view-filled ∙ ap (λ (t : Bytes). view b ++ t) (take_all (writable_bytes b) bs (ground arith)),
      filled-IsValid,
    )
    | inr e ↦ rw (long e) (
      view-append (drop (writable_bytes b) bs) filled filled-IsValid
          ∙ ap (λ (t : Bytes). t ++ drop (writable_bytes b) bs) view-filled
          ∙ append_assoc (view b) (take (writable_bytes b) bs) (drop (writable_bytes b) bs)
          ∙ ap (λ (t : Bytes). view b ++ t) (take-append-drop (writable_bytes b) bs),
      append-IsValid (drop (writable_bytes b) bs) filled filled-IsValid,
    )
  ]
