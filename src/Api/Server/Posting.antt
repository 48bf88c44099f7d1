-- ===== src/Api/Server/Posting.antt =====
-- ApiServer::handlePostCommand in src/api/ApiServer.cpp: what a posted command becomes.
use iot_distributed_gateway.Common.{◌==◌, ◌≡◌, Bytes, ◌∷◌, ◌++◌, ℕ, ◌≢◌, Bool, true, ◌||◌, All}
use iot_distributed_gateway.Common.Text.{ascii}
use iot_distributed_gateway.Gateway.Cluster.Registry.{IsPlain}

abbrev is_blank : ℕ → Bool
is_blank x = x == 32 || x == 9 || x == 10 || x == 13

-- Whitespace of JSON, around a mark as its colon or its comma.
pub record Gap : Type 0 where
  pub front : Bytes
  pub mark : ℕ
  pub back : Bytes

abbrev pub text : Gap → Bytes
text g = g.front ++ (g.mark ∷ g.back)

pub record IsGap (g : Gap) : Type 0 where
  pub front_blank : All (λ x. is_blank x ≡ true) g.front
  pub is_mark : (g.mark == 58 || g.mark == 44) ≡ true
  pub back_blank : All (λ x. is_blank x ≡ true) g.back

abbrev pub in_quotes : Bytes → Bytes → Bytes
in_quotes value rest = 34 ∷ (value ++ (34 ∷ rest))

-- A body with its three keys in the order of the API's example, the value of the last behind some text
-- without quotation marks, and whatever comes behind it.
abbrev pub posted : Bytes → Gap → Gap → Gap → Gap → Bytes → Bytes → Bytes → Bytes → Bytes → Bytes
posted opening a b c e gap device command params rest =
    let last = in_quotes (ascii "params") (gap ++ in_quotes params rest) in
    let second = in_quotes (ascii "command") (text c ++ in_quotes command (text e ++ last)) in
    opening ++ in_quotes (ascii "device_id") (text a ++ in_quotes device (text b ++ second))

-- What a body of this layout consists of.
pub record IsPosted (opening : Bytes) (a b c e : Gap) (gap device command params : Bytes)
    : Type 0 where
  pub opening_plain : IsPlain opening
  pub a_gap : IsGap a
  pub b_gap : IsGap b
  pub c_gap : IsGap c
  pub e_gap : IsGap e
  pub gap_plain : IsPlain gap
  pub device_plain : IsPlain device
  pub command_plain : IsPlain command
  pub params_plain : IsPlain params
  pub command_device : ascii "command" ≢ device
  pub params_device : ascii "params" ≢ device
  pub params_command : ascii "params" ≢ command

module _ (opening : Bytes) (a b c e : Gap) (gap device command params rest : Bytes)
    (h : IsPosted opening a b c e gap device command params) where
  abbrev body : Bytes
  body = posted opening a b c e gap device command params rest
