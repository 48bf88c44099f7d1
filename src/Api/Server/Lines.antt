-- ===== src/Api/Server/Lines.antt =====
-- src/net/Buffer.cpp as ApiServer uses it: a line is found and taken off a buffer.
use iot_distributed_gateway.Common.{
  ℕ, suc, ◌+◌, ◌≤◌, ◌≡◌, refl, sym, ap, ◌∙◌, Bytes, [], ◌∷◌, ◌++◌, none, some, arith, length, drop,
  length-append, drop-append, append_assoc,
}
use iot_distributed_gateway.Net.Buffer.{Buffer, IsValid, view, retrieve_until, readable_bytes}
use iot_distributed_gateway.Net.Buffer.View.{length-view, view-retrieve, retrieve_until-retrieve}
use iot_distributed_gateway.Net.Buffer.Lines.{HasNoCrlf, search_crlf, find_crlf}
use iot_distributed_gateway.Api.Server.{retrieve_line}
use mathlib.Core.Option

-- A line is a text in which no line end starts, also not with its own.
abbrev pub IsLine : Bytes → Type 0
IsLine line = HasNoCrlf (line ++ 13 ∷ [])

search_crlf-append :
    (line rest : Bytes) → IsLine line → search_crlf (line ++ 13 ∷ 10 ∷ rest) ≡ some (length line)
unfolding search_crlf
search_crlf-append [] rest h = refl
search_crlf-append (x ∷ []) rest h = rw h.0 refl
search_crlf-append (x ∷ y ∷ ys) rest h =
    rw h.0 (ap (Option.map suc) (search_crlf-append (y ∷ ys) rest h.1))

pub search_crlf-HasNoCrlf : (text : Bytes) → HasNoCrlf text → search_crlf text ≡ none
unfolding search_crlf
search_crlf-HasNoCrlf [] h = refl
search_crlf-HasNoCrlf (x ∷ xs) h = rw h.0 (ap (Option.map suc) (search_crlf-HasNoCrlf xs h.1))

pub find_crlf_line :
    (line rest : Bytes) (buf : Buffer)
    → IsLine line
    → view buf ≡ line ++ 13 ∷ 10 ∷ rest
    → find_crlf buf ≡ some (length line)
unfolding find_crlf
find_crlf_line line rest buf h e = ap search_crlf e ∙ search_crlf-append line rest h

-- Taking a line and its end off leaves what stands behind it.
pub retrieve_line_lem :
    (line rest : Bytes) (buf : Buffer)
    → IsValid buf
    → view buf ≡ line ++ 13 ∷ 10 ∷ rest
    → (buf' : Buffer) × (retrieve_line (length line) buf ≡ some buf')
      × (view buf' ≡ rest)
      × IsValid buf'
retrieve_line_lem line rest buf v e =
    let whole : line ++ 13 ∷ 10 ∷ rest ≡ (line ++ 13 ∷ 10 ∷ []) ++ rest =
      sym (append_assoc line (13 ∷ 10 ∷ []) rest) in
    let size : length (line ++ 13 ∷ 10 ∷ []) ≡ length line + 2 =
      omega (arith, length-append line (13 ∷ 10 ∷ [])) in
    let enough : length line + 2 ≤ readable_bytes buf =
      omega (arith, length-view buf v, ap length e, length-append line (13 ∷ 10 ∷ rest)) in
    let index : buf.reader_index + length line + 2 ≡ buf.reader_index + (length line + 2) =
      omega arith in
    let (buf', r, b, v') = view-retrieve (length line + 2) buf v enough in
    (
      buf',
      ap (λ (k : ℕ). retrieve_until k buf) index
          ∙ retrieve_until-retrieve (length line + 2) buf v enough
          ∙ r,
      b
          ∙ ap (drop (length line + 2)) (e ∙ whole)
          ∙ drop-append (length line + 2) (line ++ 13 ∷ 10 ∷ []) rest (sym size),
      v',
    )
