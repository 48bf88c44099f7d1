-- ===== src/Gateway/Cluster/Registry.antt =====
-- ClusterManager::extractJsonField and forwardCommand on the entries of RedisClient::registerDevice.
use iot_distributed_gateway.Common.{
  ℕ, ◌==◌, ◌≡◌, refl, Bytes, bytes_test, [], ◌∷◌, ◌++◌, true, false, none, some, if◌then◌else◌, All,
}
use iot_distributed_gateway.Common.Text.{ascii}
use iot_distributed_gateway.Gateway.Cluster.{
  ClusterManager, strip, behind, up_to_quote, extract_json_field, device_json, forward_target,
  has_no_bytes,
}

-- A text without quotation marks.
abbrev pub IsPlain : Bytes → Type 0
IsPlain = All (λ x. (x == 34) ≡ false)

pub up_to_quote-append :
    (text rest : Bytes) → IsPlain text → up_to_quote (text ++ (34 ∷ rest)) ≡ some text
unfolding up_to_quote
up_to_quote-append [] rest p = refl
up_to_quote-append (x ∷ xs) rest p =
    rw (p.0, up_to_quote) (rw (up_to_quote-append xs rest p.1) refl)

-- The node that a registry entry was written with is read back from it.
pub extract_json_field-device_json :
    (node : Bytes) (now keep_alive : ℕ)
    → IsPlain node
    → extract_json_field (device_json node now keep_alive) (ascii "gateway") ≡ node
unfolding extract_json_field device_json behind strip
extract_json_field-device_json node now keep_alive p = rw (up_to_quote-append node _ p) refl

-- A command for a device that a node registered is published to that node, or to none where the node
-- is the one that looks.
pub forward_target-device_json :
    (node : Bytes) (now keep_alive : ℕ) (m : ClusterManager)
    → IsPlain node
    → has_no_bytes node ≡ false
    → forward_target true (device_json node now keep_alive) m
      ≡ (if bytes_test node m.node_id then none else some node)
unfolding forward_target device_json
forward_target-device_json node now keep_alive m p e =
    rw (extract_json_field-device_json node now keep_alive p) (rw e refl)
