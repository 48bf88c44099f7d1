-- ===== src/Storage/Tsdb/Batch.antt =====
-- TsdbClient's batch in src/storage/TsdbClient.cpp: what it holds, and what is posted.
use iot_distributed_gateway.Common.{
  ℕ, suc, ◌+◌, ◌<◌, ◌≡◌, refl, sym, ap, ◌∙◌, Bytes, List, [], ◌∷◌, ◌++◌, Bool, true, false, ◌||◌,
  if◌then◌else◌, leb, ltb, length, length-append, append_assoc, append-nil, All, Bool-cases, inl,
  inr, arith,
}
use iot_distributed_gateway.Storage.Tsdb.{
  TsdbClient, Step, max_batch_size, max_batch_bytes, line_size, connect, disconnect, flush,
  flush_if, add_line, format_line, write_device_data,
}
use Prim.{tt}

pub data Call : Type 0 where
  connects disconnects flushes : Call
  writes : ℕ → Bytes → Bytes → Bytes → Call

unfoldable pub perform : Call → TsdbClient → Step
unfolding connect disconnect flush write_device_data
perform connects c = (connect c, [])
perform disconnects c = disconnect c
perform flushes c = flush c
perform (writes now device_id measurement value) c =
    write_device_data now device_id measurement value c

unfoldable pub perform_all : List Call → TsdbClient → Step
perform_all [] c = (c, [])
perform_all (call ∷ calls) c =
    let (c', posts) = perform call c in
    let (c'', more) = perform_all calls c' in (c'', posts ++ more)

abbrev pub concat : List Bytes → Bytes
concat [] = []
concat (b ∷ rest) = b ++ concat rest

-- The lines that the calls write, from a client that is connected or not: those of a connected client
-- that fit the array of a line.
abbrev pub lines_of : List Call → Bool → Bytes
lines_of [] on = []
lines_of (connects ∷ calls) on = lines_of calls true
lines_of (disconnects ∷ calls) on = lines_of calls false
lines_of (flushes ∷ calls) on = lines_of calls on
lines_of (writes now device_id measurement value ∷ calls) on =
    let line = format_line now device_id measurement value in
    (if on then (if ltb (length line) line_size then line else []) else []) ++ lines_of calls on

-- A batch that is below both limits.
pub record IsSmall (c : TsdbClient) : Type 0 where
  pub few : c.batch_count < max_batch_size
  pub short : length c.batch_buffer < max_batch_bytes

abbrev pub IsPost : Bytes → Type 0
IsPost b = (0 < length b) × (length b < max_batch_bytes + line_size)

-- A step that took a line in, posted what left the batch, and left the client connected or not.
pub record Fine (line : Bytes) (on : Bool) (c : TsdbClient) (s : Step) : Type 0 where
  pub takes : concat s.1 ++ s.0.batch_buffer ≡ c.batch_buffer ++ line
  pub small : IsSmall s.0
  pub linked : s.0.connected ≡ on
  pub posts : All IsPost s.1

flush_if-Fine :
    (b line : Bytes) (old c : TsdbClient)
    → b ≡ old.batch_buffer ++ line
    → c.batch_buffer ≡ b
    → c.batch_count < max_batch_size + length b
    → length b < max_batch_bytes + line_size
    → Fine line c.connected old (flush_if b c)
flush_if-Fine [] line old c e f h k = record {
  takes = f ∙ e;
  small = record { few = omega arith; short = omega (arith, ap length f) };
  linked = refl;
  posts = tt;
}
flush_if-Fine (x ∷ xs) line old c e f h k = record {
  takes = append-nil ((x ∷ xs) ++ []) ∙ append-nil (x ∷ xs) ∙ e;
  small = record { few = omega arith; short = omega arith };
  linked = refl;
  posts = ((omega arith, k), tt);
}

same_batch : (c : TsdbClient) → IsSmall c → Fine [] c.connected c (c, [])
same_batch c s = record {
  takes = sym (append-nil c.batch_buffer);
  small = s;
  linked = refl;
  posts = tt;
}

flush-Fine : (c : TsdbClient) → IsSmall c → Fine [] c.connected c (flush c)
unfolding flush
flush-Fine c s =
    flush_if-Fine c.batch_buffer [] c c (sym (append-nil c.batch_buffer)) refl
      (omega (arith, s.few)) (omega (arith, s.short))

add_line-Fine :
    (line : Bytes) (c : TsdbClient)
    → IsSmall c
    → 0 < length line
    → length line < line_size
    → Fine line c.connected c (add_line line c)
unfolding add_line
add_line-Fine line c s p h =
    let size : length (c.batch_buffer ++ line) ≡ length c.batch_buffer + length line =
      length-append c.batch_buffer line in
    elim (Bool-cases (
      leb max_batch_size (suc c.batch_count)
      || leb max_batch_bytes (length (c.batch_buffer ++ line)))) [
        | inl full ↦ rw full (
            flush_if-Fine (c.batch_buffer ++ line) line c
              (record c { batch_buffer = c.batch_buffer ++ line; batch_count = suc c.batch_count })
              refl refl (omega (arith, s.few, size)) (omega (arith, s.short, size)))
        | inr room ↦ rw room (record {
          takes = refl;
          small = record { few = ground arith; short = ground arith };
          linked = refl;
          posts = tt;
        })
      ]

length-format_line :
    (now : ℕ) (device_id measurement value : Bytes)
    → 0 < length (format_line now device_id measurement value)
unfolding format_line
length-format_line now device_id measurement value = omega arith

-- The line that a call writes.
abbrev pub taken : Bool → Bytes → Bytes
taken on line = if on then (if ltb (length line) line_size then line else []) else []

write_if-Fine :
    (on : Bool) (line : Bytes) (c : TsdbClient)
    → IsSmall c
    → 0 < length line
    → Fine
        (taken on line)
        c.connected
        c
        (if on then (if leb line_size (length line) then (c, []) else add_line line c) else (c, []))
write_if-Fine false line c s p = same_batch c s
write_if-Fine true line c s p = elim (Bool-cases (leb line_size (length line))) [
  | inl long ↦
      let cut : ltb (length line) line_size ≡ false = ground arith in
      rw (long, cut) (same_batch c s)
  | inr fits ↦
      let whole : ltb (length line) line_size ≡ true = ground arith in
      rw (fits, whole) (add_line-Fine line c s p (ground arith))
]

-- The lines and the connection that one call makes, from a client that is connected or not.
abbrev line_of : Call → Bool → Bytes
line_of connects on = []
line_of disconnects on = []
line_of flushes on = []
line_of (writes now device_id measurement value) on =
    taken on (format_line now device_id measurement value)

abbrev on_after : Call → Bool → Bool
on_after connects on = true
on_after disconnects on = false
on_after flushes on = on
on_after (writes now device_id measurement value) on = on

perform-Fine :
    (call : Call) (c : TsdbClient)
    → IsSmall c
    → Fine (line_of call c.connected) (on_after call c.connected) c (perform call c)
unfolding perform connect disconnect write_device_data
perform-Fine connects c s = record {
  takes = sym (append-nil c.batch_buffer);
  small = record { few = s.few; short = s.short };
  linked = refl;
  posts = tt;
}
perform-Fine disconnects c s =
    let f = flush-Fine c s in
    record {
      takes = f.takes;
      small = record { few = f.small.few; short = f.small.short };
      linked = refl;
      posts = f.posts;
    }
perform-Fine flushes c s = flush-Fine c s
perform-Fine (writes now device_id measurement value) c s =
    write_if-Fine c.connected (format_line now device_id measurement value) c s
      (length-format_line now device_id measurement value)

lines_of-cons :
    (call : Call) (calls : List Call) (on : Bool)
    → lines_of (call ∷ calls) on ≡ line_of call on ++ lines_of calls (on_after call on)
lines_of-cons connects calls on = refl
lines_of-cons disconnects calls on = refl
lines_of-cons flushes calls on = refl
lines_of-cons (writes now device_id measurement value) calls on = refl

concat-append : (xs ys : List Bytes) → concat (xs ++ ys) ≡ concat xs ++ concat ys
concat-append [] ys = refl
concat-append (x ∷ xs) ys =
    ap (◌++◌ x) (concat-append xs ys) ∙ sym (append_assoc x (concat xs) (concat ys))

IsPost-append : (xs ys : List Bytes) → All IsPost xs → All IsPost ys → All IsPost (xs ++ ys)
IsPost-append [] ys h k = k
IsPost-append (x ∷ xs) ys h k = (h.0, IsPost-append xs ys h.1 k)

-- From a batch below its limits, over any calls: what was posted, in order, and what is still in the batch
-- is what the batch held and the lines of the writes behind it, except the writes of a client that was
-- not connected and those of lines too long for the array; none is lost, doubled or reordered. The batch
-- stays below 100 lines and a megabyte, and no post is empty or more than a line beyond a megabyte.
pub perform_all-Fine :
    (calls : List Call) (c : TsdbClient)
    → IsSmall c
    → (concat (perform_all calls c).1 ++ (perform_all calls c).0.batch_buffer
        ≡ c.batch_buffer ++ lines_of calls c.connected)
      × IsSmall (perform_all calls c).0
      × All IsPost (perform_all calls c).1
unfolding perform_all
perform_all-Fine [] c s = (sym (append-nil c.batch_buffer), s, tt)
perform_all-Fine (call ∷ calls) c s =
    let (c', posts) = perform call c in
    let f : Fine (line_of call c.connected) (on_after call c.connected) c (c', posts) =
      perform-Fine call c s in
    let (e, s', p) = perform_all-Fine calls c' f.small in
    let more = (perform_all calls c').1 in
    let left = (perform_all calls c').0.batch_buffer in
    (
      ap (λ (b : Bytes). b ++ left) (concat-append posts more)
          ∙ append_assoc (concat posts) (concat more) left
          ∙ ap (◌++◌ (concat posts)) e
          ∙ sym (append_assoc (concat posts) c'.batch_buffer (lines_of calls c'.connected))
          ∙ ap (λ (b : Bytes). b ++ lines_of calls c'.connected) f.takes
          ∙ append_assoc c.batch_buffer (line_of call c.connected) (lines_of calls c'.connected)
          ∙ ap (λ (on : Bool). c.batch_buffer ++ (line_of call c.connected ++ lines_of calls on))
              f.linked
          ∙ ap (◌++◌ c.batch_buffer) (sym (lines_of-cons call calls c.connected)),
      s',
      IsPost-append posts more f.posts p,
    )
