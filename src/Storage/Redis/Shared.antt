-- ===== src/Storage/Redis/Shared.antt =====
-- RedisClient::registerDevice, unregisterDevice, updateDeviceHeartbeat and getDeviceGateway against the
-- registry that all gateways share: a map from device to entry, where an absent entry is empty.
use iot_distributed_gateway.Common.{
  ℕ, ◌/◌, Bytes, bytes_test, bytes_test_iff, [], Bool, true, Option, none, some, if◌then◌else◌,
  take, ◌≡◌, ◌≢◌, refl, sym, ap, ◌∙◌, arith, Bool-cases, Option-cases, inl, inr,
}
use iot_distributed_gateway.Common.CString.{c_str}
use iot_distributed_gateway.Gateway.Cluster.{device_json, strip}
use iot_distributed_gateway.Storage.Redis.{
  Reply, string, status, error, integer, nil, array, RedisClient, Server, Link, Run,
  string_or_empty, lld,
}
use iot_distributed_gateway.Storage.Redis.Registry.{
  devices_key, telemetry_key, renew_heartbeat, register_device, unregister_device,
  update_device_heartbeat, split_at, number_end,
}
use iot_distributed_gateway.Storage.Redis.Contract.{KeepsHashes, hget, hset, hdel, reads, after}

-- A client that is connected, and the server behind it.
abbrev pub live : {S : Type 0} → RedisClient → S → Link S
live c s = record { client = record c { connected = true; conn = true }; server = s }

pub data RegistryCall : Type 0 where
  registers : ℕ → Bytes → Bytes → ℕ → RegistryCall
  unregisters : Bytes → RegistryCall
  renews : ℕ → Bytes → RegistryCall

abbrev or_same : Bytes → Option Bytes → Bytes
or_same entry none = entry
or_same entry (some renewed) = c_str renewed

abbrev pub at : Bytes → Bytes → (Bytes → Bytes) → Bytes → Bytes
at id entry r other = if bytes_test id other then entry else r other

-- What a call makes of the registry, where a device's field is its name up to the first NUL byte.
abbrev pub specified : RegistryCall → (Bytes → Bytes) → Bytes → Bytes
specified (registers now id node keep_alive) r =
    at (c_str id) (take 511 (device_json (c_str node) now keep_alive)) r
specified (unregisters id) r = at (c_str id) [] r
specified (renews now id) r =
    at (c_str id) (or_same (r (c_str id)) (renew_heartbeat (lld (now / 1000000)) (r (c_str id)))) r

module _ {S : Type 0} (w : Server S) where
  unfoldable pub performs : RegistryCall → Run S Bool
  performs (registers now id node keep_alive) = register_device w now id node keep_alive
  performs (unregisters id) = unregister_device w id
  performs (renews now id) = update_device_heartbeat w now id

  abbrev pub registry : S → Bytes → Bytes
  registry s id = string_or_empty (reads w devices_key id s)

  module _ (Hash : Bytes → S → Type 0) where
    -- A call returns true, keeps the client connected, does to the registry what is specified, and leaves
    -- its key a hash.
    abbrev pub Refines : RedisClient → S → RegistryCall → Type 0
    Refines c s call =
        (s' : S) × (performs call (live c s) ≡ some (true, live c s'))
        × ((other : Bytes) → registry s' other ≡ specified call (registry s) other)
        × Hash devices_key s'

    module _ (k : KeepsHashes w Hash) where
      stored :
          (id entry : Bytes) (s : S)
          → Hash devices_key s
          → (other : Bytes)
          → registry (after w (hset devices_key id entry) s) other ≡ at id entry (registry s) other
      stored id entry s h other = elim (Bool-cases (bytes_test id other)) [
        | inl same ↦
            let e : id ≡ other = (bytes_test_iff id other).0 same in
            rw same (
              ap
                (λ (o : Bytes).
                  string_or_empty (reads w devices_key o (after w (hset devices_key id entry) s)))
                (sym e)
              ∙ ap string_or_empty (k.hget-hset devices_key id entry s h))
        | inr differs ↦
            let n : id ≢ other = ground (arith, bytes_test_iff id other) in
            rw differs (ap string_or_empty (k.hget-hset_other devices_key id other entry s h n))
      ]

      removed :
          (id : Bytes) (s : S)
          → Hash devices_key s
          → (other : Bytes)
          → registry (after w (hdel devices_key id) s) other ≡ at id [] (registry s) other
      removed id s h other = elim (Bool-cases (bytes_test id other)) [
        | inl same ↦
            let e : id ≡ other = (bytes_test_iff id other).0 same in
            rw same (
              ap
                (λ (o : Bytes).
                  string_or_empty (reads w devices_key o (after w (hdel devices_key id) s)))
                (sym e)
              ∙ ap string_or_empty (k.hget-hdel devices_key id s h))
        | inr differs ↦
            let n : id ≢ other = ground (arith, bytes_test_iff id other) in
            rw differs (ap string_or_empty (k.hget-hdel_other devices_key id other s h n))
      ]

      unchanged : (id : Bytes) (r : Bytes → Bytes) (other : Bytes) → r other ≡ at id (r id) r other
      unchanged id r other = elim (Bool-cases (bytes_test id other)) [
        | inl same ↦ rw same (ap r (sym ((bytes_test_iff id other).0 same)))
        | inr differs ↦ rw differs refl
      ]

      at_same :
          (id entry : Bytes) (r r' : Bytes → Bytes) (other : Bytes)
          → r other ≡ r' other
          → at id entry r other ≡ at id entry r' other
      at_same id entry r r' other e = rw e refl

      asked_only :
          (id other : Bytes) (s : S)
          → Hash devices_key s
          → registry (after w (hget devices_key id) s) other ≡ registry s other
      asked_only id other s h = ap string_or_empty (k.hget-hget devices_key id other s h)

      registers-Refines :
          (now : ℕ) (id node : Bytes) (keep_alive : ℕ) (c : RedisClient) (s : S)
          → Hash devices_key s
          → Refines c s (registers now id node keep_alive)
      unfolding performs register_device
      registers-Refines now id node keep_alive c s h =
          (_, refl, stored (c_str id) _ s h, k.after-hset-Hash devices_key (c_str id) _ s h)

      unregisters-Refines :
          (id : Bytes) (c : RedisClient) (s : S) → Hash devices_key s → Refines c s (unregisters id)
      unfolding performs unregister_device
      unregisters-Refines id c s h =
          let n : devices_key ≢ telemetry_key id = ground arith in
          let still = k.after-hdel-Hash devices_key (c_str id) s h in
          (
            _,
            refl,
            λ other.
                ap string_or_empty (k.hget-del_other devices_key other (telemetry_key id) _ still n)
                ∙ removed (c_str id) s h other,
            k.after-del_other-Hash devices_key (telemetry_key id) _ still n,
          )

      -- An entry that cannot be renewed is left.
      kept_back :
          (now : ℕ) (id : Bytes) (s : S)
          → Hash devices_key s
          → renew_heartbeat (lld (now / 1000000)) (registry s (c_str id)) ≡ none
          → (other : Bytes)
          → registry (after w (hget devices_key (c_str id)) s) other
            ≡ specified (renews now id) (registry s) other
      kept_back now id s h e other =
          asked_only (c_str id) other s h ∙ rw e (unchanged (c_str id) (registry s) other)

      kept_empty :
          (now : ℕ) (id : Bytes) (s : S)
          → Hash devices_key s
          → registry s (c_str id) ≡ []
          → (other : Bytes)
          → registry (after w (hget devices_key (c_str id)) s) other
            ≡ specified (renews now id) (registry s) other
      unfolding renew_heartbeat split_at number_end strip
      kept_empty now id s h e = kept_back now id s h (rw e refl)

      -- Where the answer is no text, the entry is empty, and nothing is written.
      refused_case :
          (now : ℕ) (id : Bytes) (c : RedisClient) (s : S)
          → Hash devices_key s
          → registry s (c_str id) ≡ []
          → performs (renews now id) (live c s)
            ≡ some (true, live c (after w (hget devices_key (c_str id)) s))
          → Refines c s (renews now id)
      refused_case now id c s h e r = (
        after w (hget devices_key (c_str id)) s,
        r,
        kept_empty now id s h e,
        k.after-hget-Hash devices_key (c_str id) s h,
      )

      renews_case :
          (now : ℕ) (id : Bytes) (c : RedisClient) (s : S) (reply : Option Reply)
          → Hash devices_key s
          → reads w devices_key (c_str id) s ≡ reply
          → Refines c s (renews now id)
      unfolding performs update_device_heartbeat
      renews_case now id c s none h e = refused_case now id c s h (rw e refl) (rw e refl)
      renews_case now id c s (some (status b)) h e =
          refused_case now id c s h (rw e refl) (rw e refl)
      renews_case now id c s (some (error b)) h e =
          refused_case now id c s h (rw e refl) (rw e refl)
      renews_case now id c s (some (integer n)) h e =
          refused_case now id c s h (rw e refl) (rw e refl)
      renews_case now id c s (some nil) h e = refused_case now id c s h (rw e refl) (rw e refl)
      renews_case now id c s (some (array rs)) h e =
          refused_case now id c s h (rw e refl) (rw e refl)
      renews_case now id c s (some (string json)) h e =
          let asked = after w (hget devices_key (c_str id)) s in
          let still = k.after-hget-Hash devices_key (c_str id) s h in
          elim (Option-cases (renew_heartbeat (lld (now / 1000000)) json)) [
            | inl no_field ↦
                (asked, rw (e, no_field) refl, kept_back now id s h (rw e no_field), still)
            | inr (entry, found) ↦ (
              after w (hset devices_key (c_str id) (c_str entry)) asked,
              rw (e, found) refl,
              λ other.
                  rw (e, found)
                    (stored (c_str id) (c_str entry) asked still other
                      ∙ at_same (c_str id) (c_str entry) (registry asked) (registry s) other
                          (asked_only (c_str id) other s h)),
              k.after-hset-Hash devices_key (c_str id) (c_str entry) asked still,
            )
          ]

      -- Where Redis keeps its hashes and the registry's key holds a hash or nothing, each of registerDevice,
      -- unregisterDevice and updateDeviceHeartbeat on a connected client returns true, leaves it connected,
      -- and changes the shared registry as specified: the entry under the device's name up to its first NUL
      -- byte is written, removed, or has its heartbeat replaced where it has one, and no other entry changes;
      -- and the key goes on holding a hash or nothing.
      pub performs-Refines :
          (call : RegistryCall) (c : RedisClient) (s : S) → Hash devices_key s → Refines c s call
      performs-Refines (registers now id node keep_alive) c s h =
          registers-Refines now id node keep_alive c s h
      performs-Refines (unregisters id) c s h = unregisters-Refines id c s h
      performs-Refines (renews now id) c s h =
          renews_case now id c s (reads w devices_key (c_str id) s) h refl
