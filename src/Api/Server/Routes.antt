-- ===== src/Api/Server/Routes.antt =====
-- ApiServer::handleHttpRequest in src/api/ApiServer.cpp: the routes that carry an id.
use iot_distributed_gateway.Common.{
  ℕ, ◌<◌, ◌≡◌, refl, ◌∙◌, Bytes, [], ◌∷◌, ◌++◌, false, none, some, arith, ltb, length,
}
use iot_distributed_gateway.Common.Text.{ascii, to_string}
use iot_distributed_gateway.Common.Decimal.{
  int64_half, parse_signed, parse_signed-signed_string, signed_string_small,
}
use iot_distributed_gateway.Gateway.Cluster.{strip}
use iot_distributed_gateway.Api.Server.{
  Services, route, command_route, handle_get_command_status, handle_get_device_detail, status_of,
}

command_route-cons :
    (s : Services) (c : ℕ) (text : Bytes)
    → command_route s (ascii "/api/v1/commands/" ++ c ∷ text)
      ≡ status_of s (parse_signed int64_half text)
unfolding command_route
command_route-cons s c text =
    let long : ltb (length (ascii "/api/v1/commands/" ++ c ∷ text)) 18 ≡ false = ground arith in
    rw long refl

route-commands :
    (s : Services) (c : ℕ) (text body : Bytes)
    → route s (ascii "GET") (ascii "/api/v1/commands/" ++ c ∷ text) body
      ≡ status_of s (parse_signed int64_half text)
unfolding route strip
route-commands s c text body = command_route-cons s c text

-- A GET of a device answers the detail of the id that stands in the path. A GET of a command takes one
-- byte too many off the path: where a byte and the decimal text of a number stand there, it answers the
-- status of that number, and where one byte stands there, it is an exception.
route-id :
    (s : Services) (id body : Bytes) (c n : ℕ)
    → n < int64_half
    → (route s (ascii "GET") (ascii "/api/v1/device/" ++ id) body
        ≡ some (handle_get_device_detail s id))
      × (route s (ascii "GET") (ascii "/api/v1/commands/" ++ c ∷ to_string n) body
          ≡ some (handle_get_command_status s n))
      × (route s (ascii "GET") (ascii "/api/v1/commands/" ++ c ∷ []) body ≡ none)
unfolding route strip parse_signed
route-id s id body c n h =
    let read : parse_signed int64_half (to_string n) ≡ some n =
      rw (signed_string_small int64_half n h) at
        (parse_signed-signed_string int64_half n (omega arith)) in
    (refl, route-commands s c (to_string n) body ∙ rw read refl, route-commands s c [] body)
