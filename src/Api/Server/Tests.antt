-- ===== src/Api/Server/Tests.antt =====
-- Requests to an interface whose program set no callback but the status of commands.
use iot_distributed_gateway.Common.{
  ◌+◌, length, Bytes, [], ◌∷◌, ◌++◌, ◌≡◌, refl, none, some, arith, All,
}
use iot_distributed_gateway.Common.Text.{ascii}
use iot_distributed_gateway.Net.Buffer.{Buffer, IsValid, view}
use iot_distributed_gateway.Api.Server.{Services, route, next_word, handle_http_request, answered}
use iot_distributed_gateway.Api.Server.Requests.{
  header_lines, IsHeader, handle_http_request-route, handle_http_request_part,
}
use iot_distributed_gateway.Net.Buffer.Slices.{slice}
use iot_distributed_gateway.Api.Server.Lines.{IsLine}
use iot_distributed_gateway.Api.Server.Posting.{Gap}
use Prim.{tt}

abbrev services : Services
services = record {
  device_count = none;
  send_command = none;
  cluster_stats = none;
  device_detail = none;
  command_status = some (λ id. ascii "sent");
}

-- A buffer of which a text is readable.
abbrev holding : Bytes → Buffer
holding text = record {
  buffer = 0 ∷ 0 ∷ 0 ∷ 0 ∷ 0 ∷ 0 ∷ 0 ∷ 0 ∷ text;
  reader_index = 8;
  writer_index = 8 + length text;
}

abbrev line : Bytes
line = ascii "GET /x"

abbrev header : Bytes
header = ascii "A:b"

line-IsLine : IsLine line
line-IsLine = (refl, (refl, (refl, (refl, (refl, (refl, (refl, tt)))))))

headers-IsHeader : All IsHeader (header ∷ [])
headers-IsHeader = (((refl, (refl, (refl, (refl, tt)))), omega arith), tt)

abbrev whole : Buffer
whole = holding (line ++ 13 ∷ 10 ∷ header_lines (header ∷ []) (13 ∷ 10 ∷ ascii "{}"))

abbrev part : Buffer
part = holding (line ++ 13 ∷ 10 ∷ header_lines (header ∷ []) (ascii "Ho"))

whole-IsValid : IsValid whole
whole-IsValid = record { ordered = omega arith; inside = omega arith; reserved = omega arith }

part-IsValid : IsValid part
part-IsValid = record { ordered = omega arith; inside = omega arith; reserved = omega arith }

view-whole : view whole ≡ line ++ 13 ∷ 10 ∷ header_lines (header ∷ []) (13 ∷ 10 ∷ ascii "{}")
unfolding view slice
view-whole = refl

view-part : view part ≡ line ++ 13 ∷ 10 ∷ header_lines (header ∷ []) (ascii "Ho")
unfolding view slice
view-part = refl

handle_http_request-route_example :
    (buf' : Buffer) × (view buf' ≡ [])
    × IsValid buf'
    × (handle_http_request services whole
        ≡ answered
            (route services (next_word line).0 (next_word (next_word line).1).0 (ascii "{}"))
            buf')
handle_http_request-route_example =
    handle_http_request-route services line (header ∷ []) whole whole-IsValid line-IsLine
      headers-IsHeader (ascii "{}") view-whole

handle_http_request_part_example :
    (buf' : Buffer) × (handle_http_request services part ≡ some (buf', []))
    × (view buf' ≡ ascii "Ho")
    × IsValid buf'
handle_http_request_part_example =
    handle_http_request_part services line (header ∷ []) part part-IsValid line-IsLine
      headers-IsHeader (ascii "Ho") (refl, (refl, tt)) view-part

abbrev colon : Gap
colon = record { front = []; mark = 58; back = 32 ∷ [] }

abbrev comma : Gap
comma = record { front = []; mark = 44; back = 10 ∷ [] }
