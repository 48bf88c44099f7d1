-- ===== src/Api/Server.antt =====
-- src/api/ApiServer.h and src/api/ApiServer.cpp: requests, routes and answers. The callbacks that the program
-- sets are an argument, `none` where one is not set. `none` as a result is an exception, or the abort of a
-- buffer.
pub mod Lines
pub mod Requests
pub mod Routes
pub mod Posting
mod Tests
use iot_distributed_gateway.Common.{
  ℕ, zero, suc, ◌+◌, ◌==◌, ◌&&◌, ◌||◌, Bytes, bytes_test, List, [], ◌∷◌, ◌++◌, Bool, true, false,
  Option, none, some, ltb, leb, if◌then◌else◌, length, take, drop, ◌>>=◌,
}
use iot_distributed_gateway.Common.CString.{c_str}
use iot_distributed_gateway.Common.Text.{ascii, to_string}
use iot_distributed_gateway.Common.Decimal.{int64_half, signed_string, parse_signed}
use iot_distributed_gateway.Gateway.Cluster.{strip, behind, quoted, has_no_bytes}
use iot_distributed_gateway.Net.Buffer.{Buffer, view, retrieve_until, retrieve_all, readable_bytes}
use iot_distributed_gateway.Net.Buffer.Lines.{find_crlf}

pub record Services : Type 0 where
  pub device_count : Option ℕ
  pub send_command : Option (Bytes → Bytes → Bytes → ℕ)
  pub cluster_stats : Option Bytes
  pub device_detail : Option (Bytes → Bytes)
  pub command_status : Option (ℕ → Bytes)

-- The call of the command sender, and what goes to the connection.
pub data Action : Type 0 where
  enqueues : Bytes → Bytes → Bytes → Action
  sends : Bytes → Action
  shuts_down : Action

abbrev pub status_text : ℕ → Bytes
status_text code =
    if code == 200
    then ascii "OK"
    else if code == 400
    then ascii "Bad Request"
    else if code == 404
    then ascii "Not Found"
    else ascii "Error"

abbrev crlf : Bytes
crlf = 13 ∷ 10 ∷ []

unfoldable pub response_header : ℕ → Bytes → ℕ → Bytes
response_header code content_type body_size =
    ascii "HTTP/1.1 "
    ++ (to_string code
        ++ (32
            ∷ (status_text code
                ++ (crlf
                    ++ (ascii "Content-Type: "
                        ++ (content_type
                            ++ (crlf
                                ++ (ascii "Content-Length: "
                                    ++ (to_string body_size
                                        ++ (crlf
                                            ++ (ascii "Connection: close"
                                                ++ (crlf ++ crlf))))))))))))

unfoldable pub send_http_response : ℕ → Bytes → Bytes → List Action
unfolding response_header
send_http_response code content_type body =
    sends (response_header code content_type (length body)) ∷ sends body ∷ shuts_down ∷ []

abbrev pub send_json_response : ℕ → Bytes → List Action
send_json_response code json = send_http_response code (ascii "application/json") json

abbrev number_or_zero : Option ℕ → ℕ
number_or_zero none = 0
number_or_zero (some n) = n

unfoldable pub handle_get_devices : Services → List Action
handle_get_devices s = send_json_response 200 (
    ascii "{\"code\":0,\"online_devices\":"
    ++ (to_string (number_or_zero s.device_count) ++ ascii "}"))

unfoldable pub handle_get_stats : Services → List Action
handle_get_stats s = send_json_response 200 (
    ascii "{\"code\":0,\"stats\":{\"online_devices\":"
    ++ (to_string (number_or_zero s.device_count) ++ ascii ",\"uptime_seconds\":0}}"))

abbrev cluster_json : Option Bytes → Bytes
cluster_json none = ascii "{\"code\":0,\"cluster\":{\"mode\":\"standalone\"}}"
cluster_json (some stats) = ascii "{\"code\":0,\"cluster\":" ++ (stats ++ ascii "}")

unfoldable pub handle_get_cluster : Services → List Action
handle_get_cluster s = send_json_response 200 (cluster_json s.cluster_stats)

abbrev nodes_json : Option Bytes → Bytes
nodes_json none = ascii "{\"code\":0,\"nodes\":[{\"id\":\"standalone\",\"status\":\"online\"}]}"
nodes_json (some stats) = ascii "{\"code\":0,\"nodes\":" ++ (stats ++ ascii "}")

unfoldable pub handle_get_nodes : Services → List Action
handle_get_nodes s = send_json_response 200 (nodes_json s.cluster_stats)

unfoldable pub handle_get_health : List Action
handle_get_health =
    send_json_response 200
      (ascii "{\"status\":\"ok\",\"service\":\"iot-gateway\",\"version\":\"2.0.0\"}")

unfoldable pub handle_not_found : List Action
handle_not_found = send_json_response 404 (ascii "{\"code\":-1,\"message\":\"not found\"}")

-- A text of snprintf is cut to its array, with the NUL, and what it takes by %s at its first NUL byte.
abbrev pub detail_json : Option (Bytes → Bytes) → Bytes → Bytes
detail_json none id =
    take 255 (
      ascii "{\"code\":0,\"device\":{\"id\":\""
      ++ (c_str id ++ ascii "\",\"status\":\"unknown\"}}"))
detail_json (some detail) id = detail id

unfoldable pub handle_get_device_detail : Services → Bytes → List Action
handle_get_device_detail s id = send_json_response 200 (detail_json s.device_detail id)

abbrev pub command_json : ℕ → Bytes → Bytes
command_json id status =
    ascii "{\"code\":0,\"command_id\":"
    ++ (signed_string int64_half id ++ (ascii ",\"status\":\"" ++ (c_str status ++ ascii "\"}")))

abbrev pub status_json : Option (ℕ → Bytes) → ℕ → Bytes
status_json none id = take 127 (command_json id (ascii "unknown"))
status_json (some status) id = take 255 (command_json id (status id))

unfoldable pub handle_get_command_status : Services → ℕ → List Action
handle_get_command_status s id = send_json_response 200 (status_json s.command_status id)

-- extractJsonStr: behind the key, the next text between quotation marks.
abbrev pub next_quoted : Option Bytes → Bytes
next_quoted none = []
next_quoted (some rest) = quoted (behind (34 ∷ []) rest)

unfoldable pub extract_json_str : Bytes → Bytes → Bytes
extract_json_str body key = next_quoted (behind (34 ∷ (key ++ (34 ∷ []))) body)

abbrev pub enqueued : Option (Bytes → Bytes → Bytes → ℕ) → Bytes → Bytes → Bytes → ℕ × List Action
enqueued none device command params = (0, [])
enqueued (some send) device command params =
    (send device command params, enqueues device command params ∷ [])

abbrev pub accepted : ℕ × List Action → Bytes → List Action
accepted (id, acts) device =
    acts
    ++ send_json_response 200 (
        take 255 (
          ascii "{\"code\":0,\"command_id\":"
          ++ (signed_string int64_half id
              ++ (ascii ",\"device_id\":\""
                  ++ (c_str device ++ ascii "\",\"status\":\"enqueued\",\"message\":\"ok\"}")))))

unfoldable pub handle_post_command : Services → Bytes → List Action
unfolding extract_json_str
handle_post_command s body =
    let device = extract_json_str body (ascii "device_id") in
    let command = extract_json_str body (ascii "command") in
    let found = extract_json_str body (ascii "params") in
    let params = if has_no_bytes found then ascii "{}" else found in
    if has_no_bytes device || has_no_bytes command
    then send_json_response 400 (ascii "{\"code\":-1,\"message\":\"missing device_id or command\"}")
    else accepted (enqueued s.send_command device command params) device

abbrev pub is_space : ℕ → Bool
is_space c = c == 32 || (leb 9 c && leb c 13)

-- operator>> into a std::string: the blanks in front, and the text up to the next one.
unfoldable pub skip_spaces : Bytes → Bytes
skip_spaces [] = []
skip_spaces (c ∷ rest) = if is_space c then skip_spaces rest else c ∷ rest

abbrev pub consed : ℕ → Bytes × Bytes → Bytes × Bytes
consed c (word, rest) = (c ∷ word, rest)

unfoldable pub split_word : Bytes → Bytes × Bytes
split_word [] = ([], [])
split_word (c ∷ rest) = if is_space c then ([], c ∷ rest) else consed c (split_word rest)

unfoldable pub next_word : Bytes → Bytes × Bytes
unfolding skip_spaces split_word
next_word text = split_word (skip_spaces text)

abbrev pub status_of : Services → Option ℕ → Option (List Action)
status_of s none = none
status_of s (some id) = some (handle_get_command_status s id)

-- path.substr(18), which throws past the end, and std::stoll of it.
unfoldable pub command_route : Services → Bytes → Option (List Action)
command_route s path =
    if ltb (length path) 18 then none else status_of s (parse_signed int64_half (drop 18 path))

abbrev pub starts : Bytes → Bytes → Bool
starts prefix text = elim (strip prefix text) [ none ↦ false | some rest ↦ true ]

unfoldable pub route : Services → Bytes → Bytes → Bytes → Option (List Action)
route s method path body =
    if bytes_test method (ascii "POST") && bytes_test path (ascii "/api/v1/commands")
    then some (handle_post_command s body)
    else if bytes_test method (ascii "GET") && bytes_test path (ascii "/api/v1/devices")
    then some (handle_get_devices s)
    else if bytes_test method (ascii "GET") && bytes_test path (ascii "/api/v1/stats")
    then some (handle_get_stats s)
    else if bytes_test method (ascii "GET") && bytes_test path (ascii "/api/v1/cluster")
    then some (handle_get_cluster s)
    else if bytes_test method (ascii "GET") && bytes_test path (ascii "/api/v1/nodes")
    then some (handle_get_nodes s)
    else if bytes_test method (ascii "GET") && bytes_test path (ascii "/api/v1/health")
    then some handle_get_health
    else if bytes_test method (ascii "GET") && starts (ascii "/api/v1/device/") path
    then some (handle_get_device_detail s (drop 15 path))
    else if bytes_test method (ascii "GET") && starts (ascii "/api/v1/commands/") path
    then command_route s path
    else some handle_not_found

-- retrieveUntil(crlf + 2) for the line end at an offset.
abbrev pub retrieve_line : ℕ → Buffer → Option Buffer
retrieve_line k buf = retrieve_until (buf.reader_index + k + 2) buf

abbrev pub next_line :
    (Buffer → Option (Bool × Buffer)) → ℕ → Option Buffer → Option (Bool × Buffer)
next_line more k none = none
next_line more zero (some buf) = some (true, buf)
next_line more (suc k) (some buf) = more buf

abbrev pub header_line :
    (Buffer → Option (Bool × Buffer)) → Option ℕ → Buffer → Option (Bool × Buffer)
header_line more none buf = some (false, buf)
header_line more (some k) buf = next_line more k (retrieve_line k buf)

-- The loop over the headers: whether the empty line was found. Each round takes two bytes at least.
unfoldable pub skip_headers : ℕ → Buffer → Option (Bool × Buffer)
skip_headers zero buf = none
skip_headers (suc n) buf = header_line (skip_headers n) (find_crlf buf) buf

abbrev pub answered : Option (List Action) → Buffer → Option (Buffer × List Action)
answered none buf = none
answered (some acts) buf = some (buf, acts)

abbrev pub dispatched : Services → Bytes → Option (Bool × Buffer) → Option (Buffer × List Action)
dispatched s line none = none
dispatched s line (some (false, buf)) = some (buf, [])
dispatched s line (some (true, buf)) =
    let method = next_word line in
    let path = next_word method.1 in
    answered (route s method.0 path.0 (view buf)) (retrieve_all buf)

abbrev pub headers_of : Services → Bytes → Option Buffer → Option (Buffer × List Action)
headers_of s line none = none
headers_of s line (some buf) = dispatched s line (skip_headers (suc (readable_bytes buf)) buf)

abbrev pub with_line : Services → Option ℕ → Buffer → Option (Buffer × List Action)
with_line s none buf = some (buf, [])
with_line s (some k) buf = headers_of s (take k (view buf)) (retrieve_line k buf)

unfoldable pub handle_http_request : Services → Buffer → Option (Buffer × List Action)
unfolding skip_headers
handle_http_request s buf = with_line s (find_crlf buf) buf
