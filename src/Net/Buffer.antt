-- ===== src/Net/Buffer.antt =====
-- src/net/Buffer.h and src/net/Buffer.cpp: the byte buffer of a connection. The vector is a list of bytes,
-- and a pointer into it is an index. `none` is the abort of an assert that fails.
pub mod Slices
pub mod Space
pub mod View
pub mod Read
pub mod Lines
mod Tests
use iot_distributed_gateway.Common.{
  ℕ, zero, suc, ◌+◌, ◌-◌, ◌≡◌, ◌≤◌, Bytes, List, [], ◌∷◌, ◌++◌, Bool, Option, none, some, ltb, leb,
  if◌then◌else◌, length, take, drop, replicate, ◌&&◌, ◌==◌,
}
use Slices.{slice, write, resize}

abbrev pub cheap_prepend : ℕ
cheap_prepend = 8

abbrev pub initial_size : ℕ
initial_size = 1024

pub record Buffer : Type 0 where
  pub buffer : Bytes
  pub reader_index : ℕ
  pub writer_index : ℕ

-- Buffer(initSize): the vector is zeroed.
unfoldable pub new : ℕ → Buffer
new init_size = record {
  buffer = replicate (cheap_prepend + init_size) 0;
  reader_index = cheap_prepend;
  writer_index = cheap_prepend;
}

abbrev pub readable_bytes : Buffer → ℕ
readable_bytes b = b.writer_index - b.reader_index

abbrev pub writable_bytes : Buffer → ℕ
writable_bytes b = length b.buffer - b.writer_index

abbrev pub prependable_bytes : Buffer → ℕ
prependable_bytes b = b.reader_index

-- The bytes from peek() up to beginWrite().
unfoldable pub view : Buffer → Bytes
view b = slice b.reader_index (readable_bytes b) b.buffer

unfoldable pub retrieve_all : Buffer → Buffer
retrieve_all b = record b { reader_index = cheap_prepend; writer_index = cheap_prepend }

unfoldable pub retrieve : ℕ → Buffer → Option Buffer
unfolding retrieve_all
retrieve len b =
    if leb len (readable_bytes b)
    then some (
        if ltb len (readable_bytes b)
        then record b { reader_index = b.reader_index + len }
        else retrieve_all b)
    else none

unfoldable pub retrieve_all_as_string : Buffer → Bytes × Buffer
unfolding retrieve_all view
retrieve_all_as_string b = (view b, retrieve_all b)

-- `end` is an index into the vector.
unfoldable pub retrieve_until : ℕ → Buffer → Option Buffer
retrieve_until end b =
    if leb b.reader_index end && leb end b.writer_index
    then retrieve (end - b.reader_index) b
    else none

unfoldable pub retrieve_as_string : ℕ → Buffer → Option (Bytes × Buffer)
retrieve_as_string len b = elim (retrieve len b) [
  | none ↦ none
  | some b' ↦ some (slice b.reader_index len b.buffer, b')
]

-- Grow the vector, or move the readable bytes to the front.
unfoldable pub make_space : ℕ → Buffer → Buffer
make_space len b =
    if ltb (writable_bytes b + prependable_bytes b) (len + cheap_prepend)
    then record b { buffer = resize (b.writer_index + len) b.buffer }
    else record {
      buffer = write cheap_prepend (slice b.reader_index (readable_bytes b) b.buffer) b.buffer;
      reader_index = cheap_prepend;
      writer_index = cheap_prepend + readable_bytes b;
    }

unfoldable pub ensure_writable_bytes : ℕ → Buffer → Buffer
unfolding make_space
ensure_writable_bytes len b = if ltb (writable_bytes b) len then make_space len b else b

unfoldable pub append : Bytes → Buffer → Buffer
append xs b =
    let b' = ensure_writable_bytes (length xs) b in
    record {
      buffer = write b'.writer_index xs b'.buffer;
      reader_index = b'.reader_index;
      writer_index = b'.writer_index + length xs;
    }

unfoldable pub prepend : Bytes → Buffer → Option Buffer
prepend xs b =
    if leb (length xs) (prependable_bytes b)
    then some (record b {
      buffer = write (b.reader_index - length xs) xs b.buffer;
      reader_index = b.reader_index - length xs;
    })
    else none

-- The indices stay in order and inside the vector, which keeps its reserved front.
pub record IsValid (b : Buffer) : Type 0 where
  pub ordered : b.reader_index ≤ b.writer_index
  pub inside : b.writer_index ≤ length b.buffer
  pub reserved : cheap_prepend ≤ length b.buffer
