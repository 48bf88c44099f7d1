-- ===== src/Platform/Dashboard.antt =====
-- src/platform/WebDashboard.h and src/platform/WebDashboard.cpp: requests, routes and answers. The page that
-- buildDashboardHtml returns is an argument, `html`; `has_redis` says that the pointer is not null. `none` as
-- a result is a crash of the Redis client or the abort of a buffer.
pub mod Requests
mod Tests
use iot_distributed_gateway.Common.{
  ℕ, suc, ◌==◌, Bytes, bytes_test, List, [], ◌∷◌, ◌++◌, Bool, true, false, ◌||◌, Option, none, some,
  if◌then◌else◌, length, take,
}
use iot_distributed_gateway.Common.Text.{ascii, to_string}
use iot_distributed_gateway.Net.Buffer.{Buffer, view, readable_bytes, retrieve_all}
use iot_distributed_gateway.Net.Buffer.Lines.{find_crlf}
use iot_distributed_gateway.Api.Server.{next_word, retrieve_line, skip_headers}
use iot_distributed_gateway.Storage.Redis.{Server, Run, ◌>>=◌, pure, lld}
use iot_distributed_gateway.Storage.Redis.Streams.{pending_count}
use iot_distributed_gateway.Storage.Redis.Registry.{device_count, get_all_devices}

pub data Action : Type 0 where
  sends : Bytes → Action
  shuts_down : Action

abbrev status_text : ℕ → Bytes
status_text code =
    if code == 200 then ascii "OK" else if code == 404 then ascii "Not Found" else ascii "Error"

abbrev line : Bytes → Bytes → Bytes
line text rest = text ++ (13 ∷ 10 ∷ rest)

-- At most 511 bytes, since the content types are those below.
unfoldable pub response_header : ℕ → Bytes → ℕ → Bytes
response_header code content_type body_size =
    line (ascii "HTTP/1.1 " ++ (to_string code ++ (32 ∷ status_text code))) (
      line (ascii "Content-Type: " ++ content_type) (
        line (ascii "Content-Length: " ++ to_string body_size) (
          line (ascii "Connection: close")
            (line (ascii "Access-Control-Allow-Origin: *") (line [] [])))))

unfoldable pub send_http_response : ℕ → Bytes → Bytes → List Action
unfolding response_header
send_http_response code content_type body =
    sends (response_header code content_type (length body)) ∷ sends body ∷ shuts_down ∷ []

abbrev pub send_html : ℕ → Bytes → List Action
send_html code html = send_http_response code (ascii "text/html; charset=utf-8") html

abbrev pub send_json : Bytes → List Action
send_json json = send_http_response 200 (ascii "application/json") json

-- A device and its gateway, which is the entry of the registry.
abbrev device_json : Bytes × Bytes → Bytes
device_json (id, gateway) =
    ascii "{\"id\":\""
    ++ (id ++ (ascii "\",\"gateway\":\"" ++ (gateway ++ ascii "\",\"status\":\"online\"}")))

-- The loop over the devices: a comma in front of each but the first.
unfoldable pub devices_json : Bool → List (Bytes × Bytes) → Bytes
devices_json first [] = []
devices_json first (d ∷ ds) =
    (if first then [] else ascii ",") ++ (device_json d ++ devices_json false ds)

module _ {S : Type 0} (w : Server S) (html : Bytes) where
  abbrev if_set : {A : Type 0} → Bool → Run S A → A → Run S A
  if_set true m other = m
  if_set false m other = pure other

  unfoldable pub serve_index : List Action
  serve_index = send_html 200 html

  unfoldable pub serve_api_devices : Bool → Run S (List Action)
  unfolding devices_json
  serve_api_devices has_redis = do
    count ← if_set has_redis (device_count w) 0
    devices ← if_set has_redis (get_all_devices w) []
    pure (
        send_json (
          ascii "{\"code\":0,\"count\":"
          ++ (to_string count
              ++ (ascii ",\"devices\":[" ++ (devices_json true devices ++ ascii "]}")))))

  unfoldable pub serve_api_cluster : Bool → Run S (List Action)
  serve_api_cluster has_redis = do
    count ← if_set has_redis (device_count w) 0
    pending ← if_set has_redis (pending_count w) 0
    pure (
        send_json (
          take 511 (
            ascii "{\"code\":0,\"cluster\":{\"devices\":"
            ++ (to_string count
                ++ (ascii ",\"pending_commands\":"
                    ++ (lld pending ++ ascii ",\"mode\":\"distributed\"}}"))))))

  unfoldable pub serve_api_alerts : List Action
  serve_api_alerts = send_json (ascii "{\"code\":0,\"alerts\":[]}")

  unfoldable pub serve_not_found : List Action
  serve_not_found = send_html 404 (ascii "<h1>404 Not Found</h1>")

  -- The choice by the path alone.
  unfoldable pub serve : Bool → Bytes → Run S (List Action)
  serve has_redis path =
      if bytes_test path (ascii "/")
        || (bytes_test path (ascii "/dashboard") || bytes_test path (ascii "/index.html"))
      then pure serve_index
      else if bytes_test path (ascii "/api/dashboard/devices")
      then serve_api_devices has_redis
      else if bytes_test path (ascii "/api/dashboard/cluster")
      then serve_api_cluster has_redis
      else if bytes_test path (ascii "/api/dashboard/alerts")
      then pure serve_api_alerts
      else pure serve_not_found

  abbrev pub answered : Run S (List Action) → Buffer → Run S (Buffer × List Action)
  answered m buf = do acts ← m; pure (buf, acts)

  abbrev pub dispatched : Bool → Bytes → Option (Bool × Buffer) → Run S (Buffer × List Action)
  dispatched has_redis text none l = none
  dispatched has_redis text (some (false, buf)) l = some ((buf, []), l)
  dispatched has_redis text (some (true, buf)) l =
      answered (serve has_redis (next_word (next_word text).1).0) (retrieve_all buf) l

  abbrev pub headers_of : Bool → Bytes → Option Buffer → Run S (Buffer × List Action)
  headers_of has_redis text none l = none
  headers_of has_redis text (some buf) l =
      dispatched has_redis text (skip_headers (suc (readable_bytes buf)) buf) l

  abbrev pub with_line : Bool → Option ℕ → Buffer → Run S (Buffer × List Action)
  with_line has_redis none buf l = some ((buf, []), l)
  with_line has_redis (some k) buf l =
      headers_of has_redis (take k (view buf)) (retrieve_line k buf) l

  -- The loop over the headers is that of ApiServer.
  unfoldable pub handle_http_request : Bool → Buffer → Run S (Buffer × List Action)
  handle_http_request has_redis buf l = with_line has_redis (find_crlf buf) buf l
