-- ===== src/Platform/Dashboard/Tests.antt =====
-- A POST of the list of alerts, which is answered like a GET.
use iot_distributed_gateway.Common.{
  [], ◌∷◌, ◌++◌, true, none, All, ◌≡◌, refl, arith, Bytes, ◌+◌, length,
}
use iot_distributed_gateway.Common.Text.{ascii}
use iot_distributed_gateway.Net.Buffer.{Buffer, IsValid, view}
use iot_distributed_gateway.Net.Buffer.Slices.{slice}
use iot_distributed_gateway.Api.Server.{next_word}
use iot_distributed_gateway.Api.Server.Lines.{IsLine}
use iot_distributed_gateway.Api.Server.Requests.{header_lines, IsHeader}
use iot_distributed_gateway.Storage.Redis.{RedisClient, Server, Link, connection, create}
use iot_distributed_gateway.Platform.Dashboard.{serve, answered, handle_http_request}
use iot_distributed_gateway.Platform.Dashboard.Requests.{handle_http_request-serve}
use Prim.{Unit, tt}

abbrev client : RedisClient
client = create (record {
  password = [];
  db = 0;
  stream_key = ascii "device:commands";
  consumer_group = ascii "gateway-group";
  consumer_name = ascii "a";
})

abbrev silent : Server (Unit {0})
silent = record {
  dial = λ s. (connection, s);
  answer = λ words s. (none, s);
  subscribe = λ words s. s;
}

abbrev link : Link (Unit {0})
link = record { client = client; server = tt }

abbrev line : Bytes
line = ascii "POST /api/dashboard/alerts"

abbrev text : Bytes
text = line ++ 13 ∷ 10 ∷ header_lines (ascii "A:b" ∷ []) (13 ∷ 10 ∷ ascii "{}")

abbrev request : Buffer
request = record {
  buffer = 0 ∷ 0 ∷ 0 ∷ 0 ∷ 0 ∷ 0 ∷ 0 ∷ 0 ∷ text;
  reader_index = 8;
  writer_index = 8 + length text;
}

line-IsLine : IsLine line
line-IsLine = ground arith

headers-IsHeader : All IsHeader (ascii "A:b" ∷ [])
headers-IsHeader = (((refl, (refl, (refl, (refl, tt)))), omega arith), tt)

view-request : view request ≡ text
unfolding view slice
view-request = refl

handle_http_request-serve_example :
    (buf' : Buffer) × (view buf' ≡ [])
    × IsValid buf'
    × (handle_http_request silent [] true request link
        ≡ answered silent [] (serve silent [] true (next_word (next_word line).1).0) buf' link)
handle_http_request-serve_example =
    handle_http_request-serve silent [] true line (ascii "A:b" ∷ []) request
      (record { ordered = omega arith; inside = omega arith; reserved = omega arith }) line-IsLine
      headers-IsHeader (ascii "{}") link view-request
