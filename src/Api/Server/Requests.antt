-- ===== src/Api/Server/Requests.antt =====
-- ApiServer::handleHttpRequest in src/api/ApiServer.cpp: what becomes of the bytes of a request.
use iot_distributed_gateway.Common.{
  ℕ, zero, suc, ◌+◌, ◌-◌, ◌≤◌, ◌<◌, ◌≡◌, refl, sym, ap, ◌∙◌, Bytes, List, [], ◌∷◌, ◌++◌, Bool, true,
  false, Option, some, arith, length, take, length-append, take-append, All,
}
use iot_distributed_gateway.Net.Buffer.{Buffer, IsValid, view, readable_bytes, retrieve_all}
use Prim.{tt}
use iot_distributed_gateway.Net.Buffer.Slices.{slice}
use iot_distributed_gateway.Net.Buffer.View.{length-view}
use iot_distributed_gateway.Net.Buffer.Lines.{HasNoCrlf, find_crlf}
use iot_distributed_gateway.Api.Server.{
  Services, next_word, route, retrieve_line, skip_headers, dispatched, handle_http_request,
  answered,
}
use iot_distributed_gateway.Api.Server.Lines.{
  IsLine, find_crlf_line, retrieve_line_lem, search_crlf-HasNoCrlf,
}

-- Headers one after the other, each with its line end.
abbrev pub header_lines : List Bytes → Bytes → Bytes
header_lines [] rest = rest
header_lines (h ∷ hs) rest = h ++ 13 ∷ 10 ∷ header_lines hs rest

-- A header is a line that is not empty.
abbrev pub IsHeader : Bytes → Type 0
IsHeader h = IsLine h × (0 < length h)

-- The loop's result, with what its buffer holds.
abbrev Stops : Bool → Bytes → Option (Bool × Buffer) → Type 0
Stops found rest answer =
    (buf : Buffer) × (answer ≡ some (found, buf)) × (view buf ≡ rest) × IsValid buf

skip_one :
    (n k : ℕ) (h rest : Bytes) (buf : Buffer)
    → length h ≡ suc k
    → IsLine h
    → IsValid buf
    → view buf ≡ h ++ 13 ∷ 10 ∷ rest
    → (buf' : Buffer) × (skip_headers (suc n) buf ≡ skip_headers n buf')
      × (view buf' ≡ rest)
      × IsValid buf'
unfolding skip_headers
skip_one n k h rest buf s line v e =
    let (buf', r, b, v') = retrieve_line_lem h rest buf v e in
    let r' : retrieve_line (suc k) buf ≡ some buf' =
      ap (λ (j : ℕ). retrieve_line j buf) (sym s) ∙ r in
    (buf', rw (find_crlf_line h rest buf line e ∙ ap some s) (rw r' refl), b, v')

length-header_lines : (h rest : Bytes) → length rest + 2 ≤ length (h ++ 13 ∷ 10 ∷ rest)
length-header_lines h rest = omega (arith, length-append h (13 ∷ 10 ∷ rest))

module _ (found : Bool) (end rest : Bytes)
    (stop : (n : ℕ) (b : Buffer)
      → IsValid b
      → view b ≡ end
      → Stops found rest (skip_headers (suc n) b)) where
  pub skip_through :
      (n : ℕ) (hs : List Bytes) (buf : Buffer)
      → length (view buf) < n
      → All IsHeader hs
      → IsValid buf
      → view buf ≡ header_lines hs end
      → Stops found rest (skip_headers n buf)
  skip_through zero hs buf f a v e = absurd (omega arith)
  skip_through (suc n) [] buf f a v e = stop n buf v e
  skip_through (suc n) (h ∷ hs) buf f a v e =
      let some_bytes : length h ≡ suc (length h - 1) = omega (arith, a.0.1) in
      let (buf', s, b, v') =
        skip_one n (length h - 1) h (header_lines hs end) buf some_bytes a.0.0 v e in
      let shorter : length (view buf') < n =
        omega (arith, ap length e, ap length b, length-header_lines h (header_lines hs end)) in
      let (buf'', r, b', v'') = skip_through n hs buf' shorter a.1 v' b in (buf'', s ∙ r, b', v'')

pub stop_empty :
    (body : Bytes) (n : ℕ) (b : Buffer)
    → IsValid b
    → view b ≡ 13 ∷ 10 ∷ body
    → Stops true body (skip_headers (suc n) b)
unfolding skip_headers
stop_empty body n b v e =
    let (b', r, w, v') = retrieve_line_lem [] body b v e in
    (b', rw (find_crlf_line [] body b (refl, tt) e) (rw r refl), w, v')

stop_short :
    (left : Bytes)
    → HasNoCrlf left
    → (n : ℕ) (b : Buffer) → IsValid b
    → view b ≡ left
    → Stops false left (skip_headers (suc n) b)
unfolding skip_headers find_crlf
stop_short left h n b v e = (b, rw (e, search_crlf-HasNoCrlf left h) refl, e, v)

pub retrieve_all-IsValid :
    (buf : Buffer) → IsValid buf → (view (retrieve_all buf) ≡ []) × IsValid (retrieve_all buf)
unfolding view retrieve_all slice
retrieve_all-IsValid buf v =
    (refl, record { ordered = omega arith; inside = v.reserved; reserved = v.reserved })

module _ (s : Services) (line : Bytes) (hs : List Bytes) (buf : Buffer) (v : IsValid buf)
    (request_line : IsLine line) (headers : All IsHeader hs) where
  after_line :
      (rest : Bytes)
      → view buf ≡ line ++ 13 ∷ 10 ∷ rest
      → (buf' : Buffer) × (handle_http_request s buf
          ≡ dispatched s line (skip_headers (suc (readable_bytes buf')) buf'))
        × (view buf' ≡ rest)
        × IsValid buf'
  unfolding handle_http_request
  after_line rest e =
      let (buf', r, b, v') = retrieve_line_lem line rest buf v e in
      let cut : take (length line) (view buf) ≡ line =
        ap (take (length line)) e ∙ take-append (length line) line (13 ∷ 10 ∷ rest) refl in
      (buf', rw (find_crlf_line line rest buf request_line e) (rw (r, cut) refl), b, v')

  -- A request that is all in the buffer is routed by the first two words of its request line, with all that
  -- stands behind its headers as its body, and the buffer is left empty. The result is the route's, an
  -- exception included.
  pub handle_http_request-route :
      (body : Bytes)
      → view buf ≡ line ++ 13 ∷ 10 ∷ header_lines hs (13 ∷ 10 ∷ body)
      → (buf' : Buffer) × (view buf' ≡ [])
        × IsValid buf'
        × (handle_http_request s buf
            ≡ answered (route s (next_word line).0 (next_word (next_word line).1).0 body) buf')
  handle_http_request-route body e =
      let (buf1, r, b, v1) = after_line (header_lines hs (13 ∷ 10 ∷ body)) e in
      let fuel : length (view buf1) < suc (readable_bytes buf1) =
        omega (arith, length-view buf1 v1) in
      let (buf2, q, b2, v2) =
        skip_through true (13 ∷ 10 ∷ body) body (stop_empty body) (suc (readable_bytes buf1)) hs
          buf1 fuel headers v1 b in
      let (empty, valid) = retrieve_all-IsValid buf2 v2 in
      (retrieve_all buf2, empty, valid, r ∙ rw (q, b2) refl)

  -- A request of which only a part has come, up to somewhere in its headers, is answered by nothing, and
  -- its request line and the whole headers are thrown away: the buffer keeps only the unfinished line.
  pub handle_http_request_part :
      (left : Bytes)
      → HasNoCrlf left
      → view buf ≡ line ++ 13 ∷ 10 ∷ header_lines hs left
      → (buf' : Buffer) × (handle_http_request s buf ≡ some (buf', []))
        × (view buf' ≡ left)
        × IsValid buf'
  handle_http_request_part left h e =
      let (buf1, r, b, v1) = after_line (header_lines hs left) e in
      let fuel : length (view buf1) < suc (readable_bytes buf1) =
        omega (arith, length-view buf1 v1) in
      let (buf2, q, b2, v2) =
        skip_through false left left (stop_short left h) (suc (readable_bytes buf1)) hs buf1 fuel
          headers v1 b in
      (buf2, r ∙ rw q refl, b2, v2)
