-- ===== src/Net/Connection/Stream.antt =====
-- The bytes of a connection: what was handed in and what went to the socket.
use iot_distributed_gateway.Common.{
  ◌≤◌, ◌≡◌, ◌≢◌, refl, sym, ap, ◌∙◌, Bytes, List, [], ◌∷◌, ◌++◌, Bool, true, false, not, ◌&&◌, ◌||◌,
  some, leb, ◌==◌, length, take, drop, arith, Bool-cases, inl, inr, append-nil, append_assoc,
  take-append-drop,
}
use iot_distributed_gateway.Net.Buffer.{Buffer, view, readable_bytes, IsValid}
use iot_distributed_gateway.Net.Buffer.Space.{append-IsValid}
use iot_distributed_gateway.Net.Buffer.View.{view-append, view-retrieve, length-view}
use iot_distributed_gateway.Net.Connection.{
  Connection, State, disconnected, Effect, wrote, queued, WriteOutcome, took, refused, is_fault,
  Step, rest_of, buffer_rest, write_now, send_in_loop, handle_write, drained, is_disconnected, when,
  shutdown_in_loop, Task, write_complete_task,
}

-- The bytes that went to the socket, in order.
abbrev pub sent : List Effect → Bytes
sent [] = []
sent (wrote bs ∷ es) = bs ++ sent es
sent (_ ∷ es) = sent es

pub sent-append : (es fs : List Effect) → sent (es ++ fs) ≡ sent es ++ sent fs
sent-append [] fs = refl
sent-append (wrote bs ∷ es) fs = rw (sent-append es fs, append_assoc) refl
sent-append (_ ∷ es) fs = sent-append es fs

-- The write answered as ::write does, and did not find the connection broken.
abbrev pub Accepts : WriteOutcome → Bytes → Type 0
Accepts (took n) bytes = n ≤ length bytes
Accepts (refused e) bytes = is_fault e ≡ false

rest_of_lem :
    (bytes : Bytes) (c : Connection)
    → IsValid c.output_buffer
    → IsValid (rest_of bytes c).0.output_buffer
      × (view (rest_of bytes c).0.output_buffer ≡ view c.output_buffer ++ bytes)
      × (sent (rest_of bytes c).1 ≡ [])
      × ((rest_of bytes c).0.state ≡ c.state)
unfolding buffer_rest
rest_of_lem [] c v = (v, sym (append-nil (view c.output_buffer)), refl, refl)
rest_of_lem (x ∷ xs) c v = (
  append-IsValid (x ∷ xs) c.output_buffer v,
  view-append (x ∷ xs) c.output_buffer v,
  ground arith,
  refl,
)

-- After a method: the output buffer is well formed, the bytes that went to the socket and those that
-- wait are those that waited before and the new ones, in order.
pub record Flows (before : Connection) (bytes : Bytes) (after : Step) : Type 0 where
  pub valid : IsValid after.0.output_buffer
  pub kept : sent after.1 ++ view after.0.output_buffer ≡ view before.output_buffer ++ bytes
  pub same_state : after.0.state ≡ before.state

rest_of-Flows :
    (bytes : Bytes) (c : Connection) → IsValid c.output_buffer → Flows c bytes (rest_of bytes c)
rest_of-Flows bytes c v =
    let (w, e, s, st) = rest_of_lem bytes c v in
    record { valid = w; kept = rw s e; same_state = st }

empty_view : (b : Buffer) → IsValid b → readable_bytes b ≡ 0 → view b ≡ []
empty_view b v e = nothing (view b) (length-view b v ∙ e)
  where
    nothing : (xs : Bytes) → length xs ≡ 0 → xs ≡ []
    nothing [] h = refl
    nothing (x ∷ xs) h = absurd (omega arith)

sent-when :
    (test : Bool) (t : Task) (fs : List Effect) → sent (when test (queued t) ++ fs) ≡ sent fs
sent-when true t fs = refl
sent-when false t fs = refl

write_now-Flows :
    (o : WriteOutcome) (bytes : Bytes) (c : Connection)
    → IsValid c.output_buffer
    → view c.output_buffer ≡ []
    → Accepts o bytes
    → Flows c bytes (write_now o bytes c)
write_now-Flows (took n) bytes c v e a =
    let (w, p, s, st) = rest_of_lem (drop n bytes) c v in
    record {
      valid = w;
      kept =
          rw
            (
              sent-when (leb (length bytes) n && c.has_write_complete_cb) write_complete_task,
              s,
              p,
              e,
            )
            (rw (append-nil (take n bytes)) (take-append-drop n bytes));
      same_state = st;
    }
write_now-Flows (refused x) bytes c v e a = rw a (rest_of-Flows bytes c v)

-- sendInLoop on a connection that is not closed, with a write that does not find it broken: every byte
-- either went to the socket or waits, behind the bytes that waited before and in order.
pub send_in_loop-Flows :
    (o : WriteOutcome) (bytes : Bytes) (c : Connection)
    → c.state ≢ disconnected
    → IsValid c.output_buffer
    → Accepts o bytes
    → Flows c bytes (send_in_loop o bytes c)
unfolding send_in_loop
send_in_loop-Flows o bytes c h v a =
    rw (not_closed c.state h)
      (elim (Bool-cases (not c.channel.writing && readable_bytes c.output_buffer == 0)) [
        | inl idle ↦
            rw idle (write_now-Flows o bytes c v (empty_view c.output_buffer v (ground arith)) a)
        | inr busy ↦ rw busy (rest_of-Flows bytes c v)
      ])
  where
    not_closed : (s : State) → s ≢ disconnected → is_disconnected s ≡ false
    not_closed State.connecting h = refl
    not_closed State.connected h = refl
    not_closed State.disconnecting h = refl
    not_closed State.disconnected h = absurd (h refl)

drained_lem :
    (c : Connection) (bs : Bytes)
    → ((drained c (wrote bs ∷ [])).0.output_buffer ≡ c.output_buffer)
      × ((drained c (wrote bs ∷ [])).0.state ≡ c.state)
      × (sent (drained c (wrote bs ∷ [])).1 ≡ bs ++ [])
unfolding shutdown_in_loop
drained_lem c bs = ground arith

-- handleWrite never aborts on a count that ::write can answer, and it moves the front of the waiting
-- bytes to the socket: none is lost, repeated or reordered.
handle_write-Flows :
    (o : WriteOutcome) (c : Connection)
    → IsValid c.output_buffer
    → Accepts o (view c.output_buffer)
    → (after : Step) × (handle_write o c ≡ some after) × Flows c [] after
unfolding handle_write
handle_write-Flows (refused x) c v a = (
  (c, []),
  refl,
  record { valid = v; kept = sym (append-nil (view c.output_buffer)); same_state = refl },
)
handle_write-Flows (took n) c v a = elim (Bool-cases (not c.channel.writing || n == 0)) [
  | inl idle ↦ (
    (c, []),
    rw idle refl,
    record { valid = v; kept = sym (append-nil (view c.output_buffer)); same_state = refl },
  )
  | inr busy ↦
      let (out, e, d, w) =
        view-retrieve n c.output_buffer v (omega (arith, length-view c.output_buffer v)) in
      let (o', s, f) =
        drained_lem (record c { output_buffer = out }) (take n (view c.output_buffer)) in
      (
        drained (record c { output_buffer = out }) (wrote (take n (view c.output_buffer)) ∷ []),
        rw busy (rw e refl),
        record {
          valid = rw o' w;
          kept = rw (f, o', d, append-nil, append-nil) (take-append-drop n (view c.output_buffer));
          same_state = s;
        },
      )
]

-- Calls of sendInLoop and handleWrite, one after the other, on a connection that stays open: what was
-- handed in, and what went to the socket.
pub data Run : Connection → Bytes → Bytes → Connection → Type 0 where
  done : (c : Connection) → Run c [] [] c
  sends :
      (o : WriteOutcome) (bytes : Bytes) (c d : Connection) (more out : Bytes)
      → c.state ≢ disconnected
      → Accepts o bytes
      → Run (send_in_loop o bytes c).0 more out d
      → Run c (bytes ++ more) (sent (send_in_loop o bytes c).1 ++ out) d
  drains :
      (o : WriteOutcome) (c d : Connection) (after : Step) (more out : Bytes)
      → Accepts o (view c.output_buffer)
      → handle_write o c ≡ some after
      → Run after.0 more out d
      → Run c more (sent after.1 ++ out) d

regroup :
    (s o w v b m x : Bytes) → s ++ w ≡ v ++ b → o ++ x ≡ w ++ m → (s ++ o) ++ x ≡ v ++ (b ++ m)
regroup s o w v b m x e f =
    append_assoc s o x
    ∙ ap (λ (t : Bytes). s ++ t) f
    ∙ sym (append_assoc s w m)
    ∙ ap (λ (t : Bytes). t ++ m) e
    ∙ append_assoc v b m

-- However the socket takes the bytes, the stream on the wire and the bytes that wait are together
-- what waited at the start and what was handed in since, in order.
pub Run-stream :
    {c d : Connection} {more out : Bytes}
    → Run c more out d
    → IsValid c.output_buffer
    → out ++ view d.output_buffer ≡ view c.output_buffer ++ more
Run-stream (done c) v = sym (append-nil (view c.output_buffer))
Run-stream (sends o bytes c d more out h a r) v =
    let f = send_in_loop-Flows o bytes c h v a in
    regroup _ out _ _ bytes more _ f.kept (Run-stream r f.valid)
Run-stream (drains o c d after more out a e r) v =
    let (s, e', f) = handle_write-Flows o c v a in
    let same : s ≡ after = some_path (sym e' ∙ e) in
    let g : Flows c [] after = rw same at f in
    regroup _ out _ _ [] more _ g.kept (Run-stream r g.valid)
  where
    some_path : {A : Type 0} {x y : A} → some x ≡ some y → x ≡ y
    some_path p = cc
