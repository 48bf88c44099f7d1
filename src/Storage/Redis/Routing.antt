-- ===== src/Storage/Redis/Routing.antt =====
-- RedisClient::registerDevice and updateDeviceHeartbeat on one gateway, RedisClient::getDeviceGateway and
-- ClusterManager::forwardCommand on another.
use iot_distributed_gateway.Common.{
  ℕ, ◌≤◌, ◌<◌, Bytes, bytes_test, bytes_test_iff, List, [], ◌∷◌, true, false, none, some,
  if◌then◌else◌, length, take_all, All, ◌≡◌, refl, sym, subst, ◌∙◌, Bool-cases, inl, inr,
}
use iot_distributed_gateway.Common.CString.{c_str, HasNoNul, c_str_lem}
use iot_distributed_gateway.Common.Decimal.{int64_half}
use iot_distributed_gateway.Gateway.Cluster.{
  ClusterManager, device_json, forward_target, has_no_bytes,
}
use iot_distributed_gateway.Gateway.Cluster.Registry.{IsPlain, forward_target-device_json}
use iot_distributed_gateway.Storage.Redis.{RedisClient, Server}
use iot_distributed_gateway.Storage.Redis.Registry.{get_device_gateway}
use iot_distributed_gateway.Storage.Redis.Contract.{KeepsHashes}
use iot_distributed_gateway.Storage.Redis.Registry.{devices_key}
use iot_distributed_gateway.Storage.Redis.Entries.{renew_heartbeat-device_json, c_str-device_json}
use iot_distributed_gateway.Storage.Redis.Shared.{
  RegistryCall, registers, unregisters, renews, live, performs, registry, specified,
  performs-Refines,
}

-- Calls one after the other, each by whatever connected client.
pub data Calls {S : Type 0} (w : Server S) : S → List RegistryCall → S → Type 0 where
  no_more : {s : S} → Calls w s [] s
  call :
      {s s' s'' : S} {calls : List RegistryCall} (c : RedisClient) (first : RegistryCall)
      → performs w first (live c s) ≡ some (true, live c s')
      → Calls w s' calls s''
      → Calls w s (first ∷ calls) s''

-- The call is not one that writes or removes the device's entry, except to renew its heartbeat: the name of
-- a device that it registers or removes differs from the device's in front of the first NUL bytes.
abbrev pub Spares : Bytes → RegistryCall → Type 0
Spares id (registers now i node keep_alive) = bytes_test (c_str i) (c_str id) ≡ false
Spares id (unregisters i) = bytes_test (c_str i) (c_str id) ≡ false
Spares id (renews now i) = now < int64_half

module _ {S : Type 0} (w : Server S) (Hash : Bytes → S → Type 0) (k : KeepsHashes w Hash) where
  becomes :
      (first : RegistryCall) (c : RedisClient) (s s' : S)
      → performs w first (live c s) ≡ some (true, live c s')
      → Hash devices_key s
      → ((id : Bytes) → registry w s' id ≡ specified first (registry w s) id) × Hash devices_key s'
  becomes first c s s' e h =
      let (t, p, r, still) = performs-Refines w Hash k first c s h in
      let same : t ≡ s' = cc in
      subst
        (λ (x : S).
          ((id : Bytes) → registry w x id ≡ specified first (registry w s) id) × Hash devices_key x)
        same (r, still)

  -- The entry is one that its device was registered with on the node.
  abbrev OnNode : Bytes → ℕ → Bytes → Type 0
  OnNode node keep_alive entry = (t : ℕ) × (entry ≡ device_json node t keep_alive)

  module _ (id node : Bytes) (keep_alive : ℕ) (plain : IsPlain node) (whole : HasNoNul node) where
    specified-OnNode :
        (first : RegistryCall) (r : Bytes → Bytes)
        → Spares id first
        → OnNode node keep_alive (r (c_str id))
        → OnNode node keep_alive (specified first r (c_str id))
    specified-OnNode (registers now i n ka) r h o = rw h o
    specified-OnNode (unregisters i) r h o = rw h o
    specified-OnNode (renews now i) r h (t, o) =
        elim (Bool-cases (bytes_test (c_str i) (c_str id))) [
          | inl same ↦
              let e : c_str i ≡ c_str id = (bytes_test_iff (c_str i) (c_str id)).0 same in
              (
                now,
                rw (same, e, o)
                    (rw (renew_heartbeat-device_json node t now keep_alive plain h)
                      (c_str-device_json node now keep_alive whole)),
              )
          | inr other ↦ rw other (t, o)
        ]

    Calls-OnNode :
        {s s' : S} {calls : List RegistryCall}
        → Calls w s calls s'
        → All (Spares id) calls
        → Hash devices_key s
        → OnNode node keep_alive (registry w s (c_str id))
        → OnNode node keep_alive (registry w s' (c_str id))
    Calls-OnNode no_more h hash o = o
    Calls-OnNode (call {s = s} {s' = s'} c first e rest) h hash o =
        let (made, still) = becomes first c s s' e hash in
        let next : OnNode node keep_alive (registry w s' (c_str id)) =
          subst (OnNode node keep_alive) (sym (made (c_str id)))
            (specified-OnNode first (registry w s) h.0 o) in
        Calls-OnNode rest h.1 still next

    registered-OnNode :
        {s s' : S} {calls : List RegistryCall} (now : ℕ)
        → Calls w s (registers now id node keep_alive ∷ calls) s'
        → All (Spares id) calls
        → Hash devices_key s
        → length (device_json node now keep_alive) ≤ 511
        → OnNode node keep_alive (registry w s' (c_str id))
    registered-OnNode now (call {s = s} {s' = s'} c first e rest) h hash fits =
        let self : bytes_test (c_str id) (c_str id) ≡ true =
          (bytes_test_iff (c_str id) (c_str id)).1 refl in
        let (made, still) = becomes (registers now id node keep_alive) c s s' e hash in
        let written : registry w s' (c_str id) ≡ device_json node now keep_alive =
          made (c_str id)
          ∙ rw (self, c_str_lem node whole) (take_all 511 (device_json node now keep_alive) fits) in
        Calls-OnNode rest h still (now, written)

-- Where Redis keeps its hashes, the registry's key holds a hash or nothing, and a node, named by a
-- non-empty text without quotation marks and NUL bytes, registered a device with an entry of at most 511
-- bytes, then after whatever other registry calls of connected clients, except ones that register or
-- remove a device of the same name up to the first NUL byte, getDeviceGateway on any connected client
-- answers an entry from which forwardCommand chooses that node, or no node where it is the one that asks.
pub get_device_gateway-forward_target :
    {S : Type 0} (w : Server S) (Hash : Bytes → S → Type 0) (k : KeepsHashes w Hash)
    (id node : Bytes) (keep_alive now : ℕ) {s s' : S} {calls : List RegistryCall} (c : RedisClient)
    (m : ClusterManager)
    → IsPlain node
    → HasNoNul node
    → has_no_bytes node ≡ false
    → Hash devices_key s
    → length (device_json node now keep_alive) ≤ 511
    → All (Spares id) calls
    → Calls w s (registers now id node keep_alive ∷ calls) s'
    → (entry : Bytes) × (s'' : S) × (get_device_gateway w id (live c s') ≡ some (entry, live c s''))
      × (forward_target true entry m ≡ (if bytes_test node m.node_id then none else some node))
unfolding get_device_gateway
get_device_gateway-forward_target w Hash k id node keep_alive now {s' = s'} c m plain whole named
      hash fits h calls =
    let (t, e) = registered-OnNode w Hash k id node keep_alive plain whole now calls h hash fits in
    (
      registry w s' (c_str id),
      _,
      refl,
      rw e (forward_target-device_json node t keep_alive m plain named),
    )
