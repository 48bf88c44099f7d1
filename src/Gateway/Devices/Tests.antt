-- ===== src/Gateway/Devices/Tests.antt =====
-- A node with one device, for the theorems about the manager.
use iot_distributed_gateway.Common.{
  ◌↔◌, ℕ, bytes_eq, [], ◌∷◌, Bool, true, false, none, if◌then◌else◌, ◌≡◌,
}
use iot_distributed_gateway.Common.Dict.{lookup}
use iot_distributed_gateway.Common.StringSet.{contains}
use iot_distributed_gateway.Common.Multimap.{members}
use iot_distributed_gateway.Gateway.Devices.{
  DeviceManager, new, check_heartbeat_timeout, get_subscribers,
}
use iot_distributed_gateway.Gateway.Devices.Subscriptions.{
  IsValid, Operation, perform, perform-IsValid, new-IsValid,
}
use iot_distributed_gateway.Gateway.Devices.Liveness.{
  late, check_heartbeat_timeout_lem, member, Reaches, get_subscribers_lem,
}

abbrev one_device : DeviceManager
one_device = perform (Operation.onlines false 1000000 (97 ∷ []) 3 60 [] [] []) (new (110 ∷ []))

one-IsValid : IsValid one_device
one-IsValid =
    perform-IsValid (Operation.onlines false 1000000 (97 ∷ []) 3 60 [] [] []) (new (110 ∷ []))
      (new-IsValid (110 ∷ []))

abbrev subscribed : DeviceManager
subscribed = perform (Operation.subscribes (97 ∷ []) (116 ∷ [])) one_device

perform-IsValid_example : IsValid subscribed
perform-IsValid_example =
    perform-IsValid (Operation.subscribes (97 ∷ []) (116 ∷ [])) one_device one-IsValid

subscribed-IsValid : IsValid subscribed
subscribed-IsValid =
    perform-IsValid (Operation.subscribes (97 ∷ []) (116 ∷ [])) one_device one-IsValid

check_heartbeat_timeout_lem_example :
    (contains (97 ∷ []) (check_heartbeat_timeout true 92000000 subscribed).1
      ≡ late 92000000 (lookup (97 ∷ []) subscribed.devices))
    × (lookup (97 ∷ []) (check_heartbeat_timeout true 92000000 subscribed).0.0.devices ≡ (
        if late 92000000 (lookup (97 ∷ []) subscribed.devices)
        then none
        else lookup (97 ∷ []) subscribed.devices))
check_heartbeat_timeout_lem_example =
    check_heartbeat_timeout_lem true 92000000 (97 ∷ []) subscribed subscribed-IsValid

abbrev all_up : ℕ → Bool
all_up c = true

get_subscribers_lem_example :
    (member 3 (get_subscribers all_up (116 ∷ []) subscribed) ≡ true)
    ↔ Reaches all_up (members (116 ∷ []) subscribed.topic_subscribers) subscribed 3
get_subscribers_lem_example = get_subscribers_lem all_up (116 ∷ []) subscribed 3
