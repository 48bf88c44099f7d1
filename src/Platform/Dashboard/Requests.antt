-- ===== src/Platform/Dashboard/Requests.antt =====
-- WebDashboard::handleHttpRequest in src/platform/WebDashboard.cpp: which answer a request gets.
use iot_distributed_gateway.Common.{
  suc, ◌<◌, ◌≡◌, refl, ap, ◌∙◌, Bytes, List, [], ◌∷◌, ◌++◌, Bool, true, arith, length, take,
  take-append, All,
}
use iot_distributed_gateway.Net.Buffer.{Buffer, IsValid, view, readable_bytes, retrieve_all}
use iot_distributed_gateway.Net.Buffer.View.{length-view}
use iot_distributed_gateway.Api.Server.{next_word}
use iot_distributed_gateway.Api.Server.Lines.{IsLine, find_crlf_line, retrieve_line_lem}
use iot_distributed_gateway.Api.Server.Requests.{
  header_lines, IsHeader, skip_through, stop_empty, retrieve_all-IsValid,
}
use iot_distributed_gateway.Storage.Redis.{Server, Link}
use iot_distributed_gateway.Platform.Dashboard.{serve, answered, handle_http_request}

module _ {S : Type 0} (w : Server S) (html : Bytes) (has_redis : Bool) (line : Bytes)
    (hs : List Bytes) (buf : Buffer) (v : IsValid buf) (request_line : IsLine line)
    (headers : All IsHeader hs) where
  -- A request that is all in the buffer is answered by its path alone, whatever its method and its body,
  -- and the buffer is left empty, so that a second request behind it is lost.
  pub handle_http_request-serve :
      (body : Bytes) (l : Link S)
      → view buf ≡ line ++ 13 ∷ 10 ∷ header_lines hs (13 ∷ 10 ∷ body)
      → (buf' : Buffer) × (view buf' ≡ [])
        × IsValid buf'
        × (handle_http_request w html has_redis buf l
            ≡ answered w html (serve w html has_redis (next_word (next_word line).1).0) buf' l)
  unfolding handle_http_request
  handle_http_request-serve body l e =
      let (buf1, r, b, v1) = retrieve_line_lem line (header_lines hs (13 ∷ 10 ∷ body)) buf v e in
      let cut : take (length line) (view buf) ≡ line =
        ap (take (length line)) e
        ∙ take-append (length line) line (13 ∷ 10 ∷ header_lines hs (13 ∷ 10 ∷ body)) refl in
      let fuel : length (view buf1) < suc (readable_bytes buf1) =
        omega (arith, length-view buf1 v1) in
      let (buf2, q, b2, v2) =
        skip_through true (13 ∷ 10 ∷ body) body (stop_empty body) (suc (readable_bytes buf1)) hs
          buf1 fuel headers v1 b in
      let (empty, valid) = retrieve_all-IsValid buf2 v2 in
      (
        retrieve_all buf2,
        empty,
        valid,
        rw (find_crlf_line line (header_lines hs (13 ∷ 10 ∷ body)) buf request_line e)
            (rw (r, cut) (rw q refl)),
      )
