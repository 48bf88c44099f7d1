-- ===== src/Gateway/Server/Messages.antt =====
-- GatewayServer::onMessage as a reader of a byte stream, and a stream that comes in two pieces.
use iot_distributed_gateway.Common.{
  ℕ, zero, suc, ◌+◌, ◌≤◌, ◌≡◌, ◌≢◌, refl, sym, ap, ◌∙◌, Bytes, List, [], ◌∷◌, ◌++◌, Bool, true,
  false, none, some, if◌then◌else◌, arith, length, drop, length-drop, length-append, drop-append_le,
  append_assoc, Bool-cases, Option-cases, inl, inr,
}
use iot_distributed_gateway.Protocol.Codec.{ParseResult, ok, incomplete, error, Parsed, parse_bytes}
use iot_distributed_gateway.Protocol.Codec.Framing.{
  parse_bytes-append, total_len-le, parse_bytes-ne-incomplete,
}
use iot_distributed_gateway.Gateway.Server.{Server, Action, force_close, Env, codec, react}

-- What a reader makes of bytes: those it leaves, the server after it, what was done, and whether it met
-- a broken packet.
pub record Outcome : Type 0 where
  pub left : Bytes
  pub server : Server
  pub actions : List Action
  pub failed : Bool

abbrev pub after : List Action → Outcome → Outcome
after acts o = record o { actions = acts ++ o.actions }

-- One packet after the other, until there is no whole one or a broken one.
unfoldable pub drain : ℕ → Env → ℕ → Bytes → Server → Outcome
drain zero env conn xs s = record { left = xs; server = s; actions = []; failed = false }
drain (suc rounds) env conn xs s = elim (parse_bytes codec xs) [
  | none ↦ record { left = xs; server = s; actions = []; failed = false }
  | some r ↦
      let (s', acts) = react env conn r.event s in
      let rest = drop r.total_len xs in
      elim (r.result) [
        | ok ↦ after acts (drain rounds env conn rest s')
        | _ ↦ record {
          left = rest;
          server = s';
          actions = acts ++ (force_close conn ∷ []);
          failed = true;
        }
      ]
]

pub drain-none :
    (rounds : ℕ) (env : Env) (conn : ℕ) (xs : Bytes) (s : Server)
    → parse_bytes codec xs ≡ none
    → drain rounds env conn xs s ≡ record { left = xs; server = s; actions = []; failed = false }
unfolding drain
drain-none zero env conn xs s e = refl
drain-none (suc rounds) env conn xs s e = rw (e, drain) refl

abbrev next : ℕ → Env → ℕ → Bytes → Server → Parsed → Outcome
next rounds env conn xs s r =
    after (react env conn r.event s).1
      (drain rounds env conn (drop r.total_len xs) (react env conn r.event s).0)

abbrev broken : Env → ℕ → Bytes → Server → Parsed → Outcome
broken env conn xs s r = record {
  left = drop r.total_len xs;
  server = (react env conn r.event s).0;
  actions = (react env conn r.event s).1 ++ (force_close conn ∷ []);
  failed = true;
}

pub drain-ok :
    (rounds : ℕ) (env : Env) (conn : ℕ) (xs : Bytes) (s : Server) (r : Parsed)
    → parse_bytes codec xs ≡ some r
    → r.result ≡ ok
    → drain (suc rounds) env conn xs s ≡ next rounds env conn xs s r
unfolding drain
drain-ok rounds env conn xs s r e f = rw (e, drain) (rw f refl)

pub drain-error :
    (rounds : ℕ) (env : Env) (conn : ℕ) (xs : Bytes) (s : Server) (r : Parsed)
    → parse_bytes codec xs ≡ some r
    → r.result ≡ error
    → drain (suc rounds) env conn xs s ≡ broken env conn xs s r
unfolding drain
drain-error rounds env conn xs s r e f = rw (e, drain) (rw f refl)

-- The packet at the front, with what the codec's theorems say of it.
data Front (xs : Bytes) : Type 0 where
  cut_short : parse_bytes codec xs ≡ none → Front xs
  whole :
      (r : Parsed)
      → parse_bytes codec xs ≡ some r
      → r.result ≡ ok
      → 1 ≤ r.total_len
      → r.total_len ≤ length xs
      → Front xs
  is_broken :
      (r : Parsed)
      → parse_bytes codec xs ≡ some r
      → r.result ≡ error
      → 1 ≤ r.total_len
      → r.total_len ≤ length xs
      → Front xs

front : (xs : Bytes) → Front xs
front xs = elim (Option-cases (parse_bytes codec xs)) [
  | inl e ↦ cut_short e
  | inr (r, e) ↦ let (n, l) = parse_bytes-ne-incomplete codec xs r e in split r.result r e l n refl
]
  where
    split :
        (p : ParseResult) (r : Parsed)
        → parse_bytes codec xs ≡ some r
        → 1 ≤ r.total_len
        → r.result ≢ incomplete
        → r.result ≡ p
        → Front xs
    split ok r e l n h = whole r e h l (total_len-le codec xs r e)
    split incomplete r e l n h = absurd (n h)
    split error r e l n h = is_broken r e h l (total_len-le codec xs r e)

pub nothing : parse_bytes codec [] ≡ none
unfolding parse_bytes
nothing = refl

-- As many rounds as there are bytes are enough.
pub drain_enough :
    (m n : ℕ) (env : Env) (conn : ℕ) (xs : Bytes) (s : Server)
    → length xs ≤ m
    → length xs ≤ n
    → drain m env conn xs s ≡ drain n env conn xs s
drain_enough zero zero env conn xs s h k = refl
drain_enough (suc m) zero env conn [] s h k =
    drain-none (suc m) env conn [] s nothing ∙ sym (drain-none zero env conn [] s nothing)
drain_enough (suc m) zero env conn (x ∷ xs) s h k = absurd (omega arith)
drain_enough zero (suc n) env conn [] s h k =
    drain-none zero env conn [] s nothing ∙ sym (drain-none (suc n) env conn [] s nothing)
drain_enough zero (suc n) env conn (x ∷ xs) s h k = absurd (omega arith)
drain_enough (suc m) (suc n) env conn xs s h k = elim (front xs) [
  | cut_short e ↦ drain-none (suc m) env conn xs s e ∙ sym (drain-none (suc n) env conn xs s e)
  | whole r e f one fits ↦
      let (s', acts) = react env conn r.event s in
      let rest = drop r.total_len xs in
      let shorter : length rest + r.total_len ≡ length xs =
        omega (arith, length-drop r.total_len xs) in
      drain-ok m env conn xs s r e f
      ∙ ap (after acts) (drain_enough m n env conn rest s' (omega arith) (omega arith))
      ∙ sym (drain-ok n env conn xs s r e f)
  | is_broken r e f one fits ↦
      drain-error m env conn xs s r e f ∙ sym (drain-error n env conn xs s r e f)
]

-- The outcome of more bytes behind those of an outcome.
abbrev pub continue_with : ℕ → Env → ℕ → Bytes → Outcome → Outcome
continue_with rounds env conn ys o =
    if o.failed
    then record o { left = o.left ++ ys }
    else after o.actions (drain rounds env conn (o.left ++ ys) o.server)

continue-after :
    (rounds : ℕ) (env : Env) (conn : ℕ) (ys : Bytes) (acts : List Action) (o : Outcome)
    → continue_with rounds env conn ys (after acts o)
      ≡ after acts (continue_with rounds env conn ys o)
continue-after rounds env conn ys acts o = elim (Bool-cases o.failed) [
  | inl e ↦ rw e refl
  | inr e ↦ rw e (
      ap
        (λ (more : List Action). record (drain rounds env conn (o.left ++ ys) o.server) {
          actions = more;
        })
        (append_assoc acts o.actions (drain rounds env conn (o.left ++ ys) o.server).actions))
]

drain-append_cut :
    (m n k : ℕ) (env : Env) (conn : ℕ) (xs ys : Bytes) (s : Server)
    → parse_bytes codec xs ≡ none
    → length xs + length ys ≤ n
    → length xs + length ys ≤ k
    → drain n env conn (xs ++ ys) s ≡ continue_with k env conn ys (drain m env conn xs s)
drain-append_cut m n k env conn xs ys s e i j =
    drain_enough n k env conn (xs ++ ys) s (omega (arith, length-append xs ys))
      (omega (arith, length-append xs ys))
    ∙ ap (continue_with k env conn ys) (sym (drain-none m env conn xs s e))

-- However a stream is cut into two reads, the outcome is the same: the same actions in the same order,
-- the same server and the same bytes left over.
pub drain-append :
    (m n k : ℕ) (env : Env) (conn : ℕ) (xs ys : Bytes) (s : Server)
    → length xs ≤ m
    → length xs + length ys ≤ n
    → length xs + length ys ≤ k
    → drain n env conn (xs ++ ys) s ≡ continue_with k env conn ys (drain m env conn xs s)
drain-append zero n k env conn [] ys s h i j =
    drain-append_cut zero n k env conn [] ys s nothing i j
drain-append zero n k env conn (x ∷ xs) ys s h i j = absurd (omega arith)
drain-append (suc m) zero k env conn [] ys s h i j =
    drain-append_cut (suc m) zero k env conn [] ys s nothing i j
drain-append (suc m) zero k env conn (x ∷ xs) ys s h i j = absurd (omega arith)
drain-append (suc m) (suc n) k env conn xs ys s h i j = elim (front xs) [
  | cut_short e ↦ drain-append_cut (suc m) (suc n) k env conn xs ys s e i j
  | whole r e f one fits ↦
      let (s', acts) = react env conn r.event s in
      let rest = drop r.total_len xs in
      let shorter : length rest + r.total_len ≡ length xs =
        omega (arith, length-drop r.total_len xs) in
      drain-ok n env conn (xs ++ ys) s r (parse_bytes-append codec xs ys r e) f
      ∙ ap (λ (zs : Bytes). after acts (drain n env conn zs s'))
          (drop-append_le r.total_len xs ys fits)
      ∙ ap (after acts)
          (drain-append m n k env conn rest ys s' (omega arith) (omega arith) (omega arith))
      ∙ sym (continue-after k env conn ys acts (drain m env conn rest s'))
      ∙ ap (continue_with k env conn ys) (sym (drain-ok m env conn xs s r e f))
  | is_broken r e f one fits ↦
      drain-error n env conn (xs ++ ys) s r (parse_bytes-append codec xs ys r e) f
      ∙ ap (λ (zs : Bytes). record (broken env conn xs s r) { left = zs })
          (drop-append_le r.total_len xs ys fits)
      ∙ ap (continue_with k env conn ys) (sym (drain-error m env conn xs s r e f))
]

-- What a reader that met no broken packet leaves holds no whole packet.
drain-left :
    (m : ℕ) (env : Env) (conn : ℕ) (xs : Bytes) (s : Server)
    → length xs ≤ m
    → (drain m env conn xs s).failed ≡ false
    → parse_bytes codec (drain m env conn xs s).left ≡ none
drain-left zero env conn [] s h k =
    ap (λ (o : Outcome). parse_bytes codec o.left) (drain-none zero env conn [] s nothing) ∙ nothing
drain-left zero env conn (x ∷ xs) s h k = absurd (omega arith)
drain-left (suc m) env conn xs s h k = elim (front xs) [
  | cut_short e ↦
      ap (λ (o : Outcome). parse_bytes codec o.left) (drain-none (suc m) env conn xs s e) ∙ e
  | whole r e f one fits ↦
      let (s', acts) = react env conn r.event s in
      let rest = drop r.total_len xs in
      let shorter : length rest + r.total_len ≡ length xs =
        omega (arith, length-drop r.total_len xs) in
      let step = drain-ok m env conn xs s r e f in
      ap (λ (o : Outcome). parse_bytes codec o.left) step
      ∙ drain-left m env conn rest s' (omega arith) (ap (λ (o : Outcome). o.failed) (sym step) ∙ k)
  | is_broken r e f one fits ↦
      absurd (cc (ap (λ (o : Outcome). o.failed) (drain-error m env conn xs s r e f), k))
]
