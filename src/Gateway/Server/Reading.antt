-- ===== src/Gateway/Server/Reading.antt =====
-- The loop of GatewayServer::onMessage on its buffer, and the reader of a byte stream.
use iot_distributed_gateway.Common.{
  ℕ, zero, suc, ◌≤◌, ◌≡◌, ◌≢◌, refl, sym, ap, ◌∙◌, Bytes, [], ◌∷◌, ◌++◌, true, false, Option, none,
  some, ◌==◌, ◌>>=◌, arith, length, drop, length-drop, Bool-cases, inl, inr,
}
use iot_distributed_gateway.Net.Buffer.{Buffer, IsValid, view, readable_bytes}
use iot_distributed_gateway.Net.Buffer.View.{length-view}
use iot_distributed_gateway.Protocol.Codec.{
  Event, ParseResult, ok, incomplete, error, Parsed, parse, parse_bytes,
}
use iot_distributed_gateway.Protocol.Codec.Framing.{
  total_len-le, parse_lem, parse_bytes-ne-incomplete,
}
use iot_distributed_gateway.Gateway.Server.{
  Server, force_close, Env, Step, codec, react, message_loop, on_message, after_step,
}
use iot_distributed_gateway.Gateway.Server.Messages.{
  Outcome, drain, drain-none, drain-ok, drain-error, after, nothing,
}

-- The loop's result is an outcome of the reader.
abbrev Agrees : Option (Buffer × Step) → Outcome → Type 0
Agrees answer o =
    (buf' : Buffer) × (answer ≡ some (buf', (o.server, o.actions)))
    × (view buf' ≡ o.left)
    × IsValid buf'

module _ (n : ℕ) (env : Env) (conn : ℕ) (buf buf' : Buffer) (s : Server) (e : Option Event)
    (busy : (readable_bytes buf == 0) ≡ false) where
  loop_ok :
      parse codec buf ≡ some (ok, e, buf')
      → message_loop (suc n) env conn buf s ≡ (
          message_loop n env conn buf' (react env conn e s).0 >>= λ q.
          some (after_step (react env conn e s).1 q))
  unfolding message_loop
  loop_ok p = rw (busy, message_loop) (rw p refl)

  loop_incomplete :
      parse codec buf ≡ some (incomplete, e, buf')
      → message_loop (suc n) env conn buf s ≡ some (buf', react env conn e s)
  unfolding message_loop
  loop_incomplete p = rw (busy, message_loop) (rw p refl)

  loop_error :
      parse codec buf ≡ some (error, e, buf')
      → message_loop (suc n) env conn buf s
        ≡ some (buf', ((react env conn e s).0, (react env conn e s).1 ++ (force_close conn ∷ [])))
  unfolding message_loop
  loop_error p = rw (busy, message_loop) (rw p refl)

empty_bytes : (xs : Bytes) → length xs ≡ 0 → xs ≡ []
empty_bytes [] e = refl
empty_bytes (x ∷ xs) e = absurd (omega arith)

loop_empty :
    (n m : ℕ) (env : Env) (conn : ℕ) (buf : Buffer) (s : Server)
    → IsValid buf
    → (readable_bytes buf == 0) ≡ true
    → Agrees (message_loop (suc n) env conn buf s) (drain m env conn (view buf) s)
unfolding message_loop
loop_empty n m env conn buf s v e =
    let no_bytes : view buf ≡ [] = empty_bytes (view buf) (ground (arith, length-view buf v)) in
    let d = drain-none m env conn (view buf) s (ap (parse_bytes codec) no_bytes ∙ nothing) in
    (buf, rw (e, message_loop) (rw d refl), rw d refl, v)

loop_short :
    (n m : ℕ) (env : Env) (conn : ℕ) (buf : Buffer) (s : Server)
    → IsValid buf
    → (readable_bytes buf == 0) ≡ false
    → parse_bytes codec (view buf) ≡ none
    → parse codec buf ≡ some (incomplete, none, buf)
    → Agrees (message_loop (suc n) env conn buf s) (drain m env conn (view buf) s)
unfolding react
loop_short n m env conn buf s v busy e p =
    let d = drain-none m env conn (view buf) s e in
    (buf, loop_incomplete n env conn buf buf s none busy p ∙ rw d refl, rw d refl, v)

-- What a round finds, with what the codec's theorems say of it.
data Round (buf : Buffer) : Type 0 where
  short :
      parse_bytes codec (view buf) ≡ none
      → parse codec buf ≡ some (incomplete, none, buf)
      → Round buf
  goes_on :
      (r : Parsed) (buf' : Buffer)
      → r.result ≡ ok
      → parse_bytes codec (view buf) ≡ some r
      → parse codec buf ≡ some (ok, r.event, buf')
      → view buf' ≡ drop r.total_len (view buf)
      → IsValid buf'
      → 1 ≤ r.total_len
      → r.total_len ≤ length (view buf)
      → Round buf
  fails :
      (r : Parsed) (buf' : Buffer)
      → r.result ≡ error
      → parse_bytes codec (view buf) ≡ some r
      → parse codec buf ≡ some (error, r.event, buf')
      → view buf' ≡ drop r.total_len (view buf)
      → IsValid buf'
      → 1 ≤ r.total_len
      → r.total_len ≤ length (view buf)
      → Round buf

round : (buf : Buffer) → IsValid buf → Round buf
round buf v = elim (parse_lem codec buf v) [
  | inl q ↦ short q.0 q.1
  | inr (r, buf', e, p, w, long, v') ↦
      let (n, one) = parse_bytes-ne-incomplete codec (view buf) r e in
      split r.result r buf' n refl e p w v' one (total_len-le codec (view buf) r e)
]
  where
    split :
        (q : ParseResult) (r : Parsed) (buf' : Buffer)
        → r.result ≢ incomplete
        → r.result ≡ q
        → parse_bytes codec (view buf) ≡ some r
        → parse codec buf ≡ some (r.result, r.event, buf')
        → view buf' ≡ drop r.total_len (view buf)
        → IsValid buf'
        → 1 ≤ r.total_len
        → r.total_len ≤ length (view buf)
        → Round buf
    split ok r buf' n f e p w v' one fits = goes_on r buf' f e (rw f at p) w v' one fits
    split incomplete r buf' n f e p w v' one fits = absurd (n f)
    split error r buf' n f e p w v' one fits = fails r buf' f e (rw f at p) w v' one fits

-- The rest of a stream's outcome, from that of the stream behind a packet.
loop_goes_on :
    (n : ℕ) (env : Env) (conn : ℕ) (buf buf' : Buffer) (s : Server) (r : Parsed)
    → (readable_bytes buf == 0) ≡ false
    → r.result ≡ ok
    → parse_bytes codec (view buf) ≡ some r
    → parse codec buf ≡ some (ok, r.event, buf')
    → view buf' ≡ drop r.total_len (view buf)
    → Agrees
        (message_loop (suc n) env conn buf' (react env conn r.event s).0)
        (drain n env conn (view buf') (react env conn r.event s).0)
    → Agrees (message_loop (suc (suc n)) env conn buf s) (drain (suc n) env conn (view buf) s)
loop_goes_on n env conn buf buf' s r busy f e p w (last, a, b, c) =
    let d = drain-ok n env conn (view buf) s r e f in
    let d' =
      d
      ∙ ap
          (λ (zs : Bytes).
            after (react env conn r.event s).1 (drain n env conn zs (react env conn r.event s).0))
          (sym w) in
    (
      last,
      loop_ok (suc n) env conn buf buf' s r.event busy p ∙ rw a (rw d' refl),
      b ∙ rw d' refl,
      c,
    )

loop_fails :
    (n m : ℕ) (env : Env) (conn : ℕ) (buf buf' : Buffer) (s : Server) (r : Parsed)
    → (readable_bytes buf == 0) ≡ false
    → r.result ≡ error
    → parse_bytes codec (view buf) ≡ some r
    → parse codec buf ≡ some (error, r.event, buf')
    → view buf' ≡ drop r.total_len (view buf)
    → IsValid buf'
    → Agrees (message_loop (suc n) env conn buf s) (drain (suc m) env conn (view buf) s)
loop_fails n m env conn buf buf' s r busy f e p w v =
    let d = drain-error m env conn (view buf) s r e f in
    (buf', loop_error n env conn buf buf' s r.event busy p ∙ rw d refl, w ∙ rw d refl, v)

message_loop-drain :
    (m : ℕ) (env : Env) (conn : ℕ) (buf : Buffer) (s : Server)
    → IsValid buf
    → length (view buf) ≤ m
    → Agrees (message_loop (suc m) env conn buf s) (drain m env conn (view buf) s)
message_loop-drain zero env conn buf s v h =
    loop_empty 0 0 env conn buf s v (ground (arith, length-view buf v))
message_loop-drain (suc m) env conn buf s v h = elim (Bool-cases (readable_bytes buf == 0)) [
  | inl e ↦ loop_empty (suc m) (suc m) env conn buf s v e
  | inr busy ↦ elim (round buf v) [
    | short e p ↦ loop_short (suc m) (suc m) env conn buf s v busy e p
    | goes_on r buf' f e p w v' one fits ↦ loop_goes_on m env conn buf buf' s r busy f e p w (
        message_loop-drain m env conn buf' (react env conn r.event s).0 v'
          (omega (arith, ap length w, length-drop r.total_len (view buf))))
    | fails r buf' f e p w v' one fits ↦ loop_fails (suc m) m env conn buf buf' s r busy f e p w v'
  ]
]

-- onMessage never aborts and never runs out of rounds: it does what the reader does with the readable
-- bytes, and leaves in the buffer what the reader leaves.
pub on_message-drain :
    (env : Env) (conn : ℕ) (buf : Buffer) (s : Server)
    → IsValid buf
    → let o = drain (readable_bytes buf) env conn (view buf) s in
      (buf' : Buffer) × (on_message env conn buf s ≡ some (buf', (o.server, o.actions)))
      × (view buf' ≡ o.left)
      × IsValid buf'
unfolding on_message
on_message-drain env conn buf s v =
    message_loop-drain (readable_bytes buf) env conn buf s v (omega (arith, length-view buf v))
