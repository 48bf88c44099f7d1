-- ===== src/Net/Connection/Lifecycle.antt =====
-- TcpConnection: its states, the events that its channel waits for, and its closing.
use iot_distributed_gateway.Common.{
  ℕ, ◌+◌, ◌-◌, ◌≡◌, refl, ap, Bytes, List, [], ◌∷◌, ◌++◌, Bool, true, false, not, ◌&&◌, ◌||◌,
  Option, some, ltb, ◌==◌, length, drop, arith, Bool-cases, Option-cases, inl, inr, ◌⊎◌,
  length-append,
}
use iot_distributed_gateway.Net.Buffer.{Buffer, view, readable_bytes, retrieve, append, IsValid}
use iot_distributed_gateway.Net.Buffer.Read.{ReadOutcome, got, failed, view-read_fd}
use iot_distributed_gateway.Net.Buffer.Space.{append-IsValid}
use iot_distributed_gateway.Net.Buffer.View.{view-append, length-view}
use iot_distributed_gateway.Net.Connection.{
  Connection, is_connected, remove_channel, Effect, queued, shut_write, WriteOutcome, took, refused,
  Step, rest_of, buffer_rest, write_now, send_in_loop, handle_write, is_disconnected, when,
  shutdown_in_loop, Task, connect_established, connect_destroyed, handle_close, handle_read, send,
  shutdown, force_close, force_close_in_loop,
}

-- Both buffers are well formed; until the connection is closed the write event is waited for exactly
-- where bytes wait; and a closed connection waits for no event.
pub record Inv (c : Connection) : Type 0 where
  pub input_valid : IsValid c.input_buffer
  pub output_valid : IsValid c.output_buffer
  pub waits :
      (is_disconnected c.state ≡ true)
      ⊎ (c.channel.writing ≡ ltb 0 (readable_bytes c.output_buffer))
  pub quiet :
      (is_disconnected c.state ≡ false)
      ⊎ ((c.channel.writing ≡ false) × (c.channel.reading ≡ false))

readable-append :
    (xs : Bytes) (b : Buffer)
    → IsValid b
    → readable_bytes (append xs b) ≡ readable_bytes b + length xs
readable-append xs b v = omega (
  arith,
  length-view (append xs b) (append-IsValid xs b v),
  length-view b v,
  ap length (view-append xs b v),
  length-append (view b) xs,
)

readable-retrieve :
    (n : ℕ) (b b' : Buffer)
    → IsValid b
    → retrieve n b ≡ some b'
    → IsValid b' × (readable_bytes b' ≡ readable_bytes b - n)
unfolding retrieve
readable-retrieve n b b' v e = ground arith

rest_of-Inv :
    (bytes : Bytes) (c : Connection)
    → is_disconnected c.state ≡ false
    → Inv c
    → Inv (rest_of bytes c).0
unfolding buffer_rest
rest_of-Inv [] c h v = v
rest_of-Inv (x ∷ xs) c h v = ground (
  arith,
  append-IsValid (x ∷ xs) c.output_buffer v.output_valid,
  readable-append (x ∷ xs) c.output_buffer v.output_valid,
)

write_now-Inv :
    (o : WriteOutcome) (bytes : Bytes) (c : Connection)
    → is_disconnected c.state ≡ false
    → Inv c
    → Inv (write_now o bytes c).0
write_now-Inv (took n) bytes c h v = rest_of-Inv (drop n bytes) c h v
write_now-Inv (refused e) bytes c h v = ground (arith, rest_of-Inv bytes c h v)

pub send_in_loop-Inv :
    (o : WriteOutcome) (bytes : Bytes) (c : Connection) → Inv c → Inv (send_in_loop o bytes c).0
unfolding send_in_loop
send_in_loop-Inv o bytes c v = elim (Bool-cases (is_disconnected c.state)) [
  | inl closed ↦ rw closed v
  | inr live ↦ rw live (ground (arith, write_now-Inv o bytes c live v, rest_of-Inv bytes c live v))
]

pub handle_write-Inv :
    (o : WriteOutcome) (c : Connection) (after : Step)
    → Inv c
    → handle_write o c ≡ some after
    → Inv after.0
unfolding handle_write
handle_write-Inv (refused e) c after v e' = ground arith
handle_write-Inv (took n) c after v e = elim (Bool-cases (not c.channel.writing || n == 0)) [
  | inl idle ↦ let e' = rw idle at e in ground arith
  | inr busy ↦ elim (Option-cases (retrieve n c.output_buffer)) [
    | inl abort ↦ absurd (cc (rw (busy, abort) at e))
    | inr (out, r) ↦
        let e' = rw (busy, r) at e in
        ground (arith, readable-retrieve n c.output_buffer out v.output_valid r)
  ]
]

-- Every method of the connection, as the loop and the server call it.
pub data Method : Type 0 where
  established destroyed closes forced shuts force_closes : Method
  reads : ReadOutcome → Method
  writes : WriteOutcome → Method
  sends : Bool → WriteOutcome → Bytes → Method
  send_tasks : WriteOutcome → Bytes → Method
  shuts_down : Bool → Method

unfoldable pub perform : Method → Connection → Option Step
perform established c = connect_established c
perform destroyed c = connect_destroyed c
perform closes c = handle_close c
perform forced c = force_close_in_loop c
perform shuts c = some (c, shutdown_in_loop c)
perform force_closes c = some (force_close c)
perform (reads o) c = handle_read o c
perform (writes o) c = handle_write o c
perform (sends here o bytes) c = some (send here o bytes c)
perform (send_tasks o bytes) c = some (send_in_loop o bytes c)
perform (shuts_down here) c = some (shutdown here c)

handle_close-Inv :
    (c : Connection) (after : Step) → Inv c → handle_close c ≡ some after → Inv after.0
unfolding handle_close
handle_close-Inv c after v e = ground arith

connect_established-Inv :
    (c : Connection) (after : Step) → Inv c → connect_established c ≡ some after → Inv after.0
unfolding connect_established
connect_established-Inv c after v e = ground arith

connect_destroyed-Inv :
    (c : Connection) (after : Step) → Inv c → connect_destroyed c ≡ some after → Inv after.0
unfolding connect_destroyed
connect_destroyed-Inv c after v e = ground arith

force_close_in_loop-Inv :
    (c : Connection) (after : Step) → Inv c → force_close_in_loop c ≡ some after → Inv after.0
unfolding force_close_in_loop
force_close_in_loop-Inv c after v e = ground arith

force_close-Inv : (c : Connection) → Inv c → Inv (force_close c).0
unfolding force_close
force_close-Inv c v = ground arith

shutdown-Inv : (here : Bool) (c : Connection) → Inv c → Inv (shutdown here c).0
unfolding shutdown
shutdown-Inv here c v = ground arith

send-Inv :
    (here : Bool) (o : WriteOutcome) (bytes : Bytes) (c : Connection)
    → Inv c
    → Inv (send here o bytes c).0
unfolding send
send-Inv here o bytes c v = ground (arith, send_in_loop-Inv o bytes c v)

handle_read-Inv :
    (o : ReadOutcome) (c : Connection) (after : Step)
    → Inv c
    → handle_read o c ≡ some after
    → Inv after.0
unfolding handle_read
handle_read-Inv (got []) c after v e = ground arith
handle_read-Inv (got (x ∷ xs)) c after v e =
    ground (arith, view-read_fd (x ∷ xs) c.input_buffer v.input_valid)
handle_read-Inv (failed err) c after v e = ground arith

-- Every method keeps the invariant, if it does not abort.
pub perform-Inv :
    (m : Method) (c : Connection) (after : Step) → Inv c → perform m c ≡ some after → Inv after.0
unfolding perform
perform-Inv established c after v e = connect_established-Inv c after v e
perform-Inv destroyed c after v e = connect_destroyed-Inv c after v e
perform-Inv closes c after v e = handle_close-Inv c after v e
perform-Inv forced c after v e = force_close_in_loop-Inv c after v e
perform-Inv shuts c after v e = ground arith
perform-Inv force_closes c after v e = ground (arith, force_close-Inv c v)
perform-Inv (reads o) c after v e = handle_read-Inv o c after v e
perform-Inv (writes o) c after v e = handle_write-Inv o c after v e
perform-Inv (sends here o bytes) c after v e = ground (arith, send-Inv here o bytes c v)
perform-Inv (send_tasks o bytes) c after v e = ground (arith, send_in_loop-Inv o bytes c v)
perform-Inv (shuts_down here) c after v e = ground (arith, shutdown-Inv here c v)

-- A connection that handleClose closed is destroyed without an abort, and no callback is called again.
connect_destroyed-handle_close :
    (c : Connection) (after : Step)
    → handle_close c ≡ some after
    → (d : Step) × (connect_destroyed after.0 ≡ some d)
      × (d.1 ≡ remove_channel ∷ [])
      × (d.0.channel.added ≡ false)
unfolding handle_close connect_destroyed
connect_destroyed-handle_close c after e = (
  (record (after.0) { channel = record (after.0.channel) { added = false } }, remove_channel ∷ []),
  ground arith,
  refl,
  refl,
)

-- Whether the effects close the write side of the socket.
abbrev pub shuts_write : List Effect → Bool
shuts_write [] = false
shuts_write (shut_write ∷ es) = true
shuts_write (_ ∷ es) = shuts_write es

shuts_write-when :
    (test : Bool) (t : Task) (es : List Effect)
    → shuts_write (when test (queued t) ++ es) ≡ shuts_write es
shuts_write-when true t es = refl
shuts_write-when false t es = refl

handle_write-fin :
    (o : WriteOutcome) (c : Connection) (after : Step)
    → Inv c
    → handle_write o c ≡ some after
    → shuts_write after.1 ≡ true
    → readable_bytes after.0.output_buffer ≡ 0
unfolding handle_write
handle_write-fin (refused e) c after v e' f = ground arith
handle_write-fin (took n) c after v e f = elim (Bool-cases (not c.channel.writing || n == 0)) [
  | inl idle ↦ let e' = rw idle at e in ground arith
  | inr busy ↦ elim (Option-cases (retrieve n c.output_buffer)) [
    | inl abort ↦ absurd (cc (rw (busy, abort) at e))
    | inr (out, r) ↦ let e' = rw (busy, r) at e in ground arith
  ]
]

-- shutdown() of an open connection: the write side is closed at once exactly where the loop is here and
-- nothing waits; a connection that is not open is left alone.
pub shutdown-fin :
    (here : Bool) (c : Connection)
    → Inv c
    → shuts_write (shutdown here c).1
      ≡ here && (is_connected c.state && readable_bytes c.output_buffer == 0)
unfolding shutdown shutdown_in_loop
shutdown-fin here c v = ground arith
