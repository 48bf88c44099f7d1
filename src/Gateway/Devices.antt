-- ===== src/Gateway/Devices.antt =====
-- src/gateway/DeviceManager.h and src/gateway/DeviceManager.cpp. The methods run in the loop's thread. A
-- connection is a number, and `up` says of each whether it is connected; `linked` says whether there is
-- a Redis client and it is connected; what is sent to it is a list of calls. Times are microseconds.
pub mod Subscriptions
pub mod Liveness
mod Tests
use iot_distributed_gateway.Common.{
  ℕ, bytes_eq, ◌*◌, ◌-◌, Bytes, List, [], ◌∷◌, ◌++◌, Bool, true, false, ◌&&◌, Option, none, some,
  ltb, if◌then◌else◌, length,
}
use iot_distributed_gateway.Common.Dict.{lookup, insert, erase}
use iot_distributed_gateway.Common.Multimap.{Multimap, members, put, cut}

pub record DeviceInfo : Type 0 where
  pub client_id : Bytes
  pub username : Bytes
  pub gateway_node_id : Bytes
  pub last_heartbeat : ℕ
  pub online_time : ℕ
  pub keep_alive : ℕ
  pub connection : Option ℕ
  pub device_type : Bytes
  pub firmware_ver : Bytes
  pub region : Bytes

pub record DeviceManager : Type 0 where
  pub node_id : Bytes
  pub devices : List (Bytes × DeviceInfo)
  pub subscriptions : Multimap
  pub topic_subscribers : Multimap

pub data RedisCall : Type 0 where
  register_device : Bytes → Bytes → ℕ → RedisCall
  unregister_device update_device_heartbeat : Bytes → RedisCall

abbrev pub Step : Type 0
Step = DeviceManager × List RedisCall

unfoldable pub new : Bytes → DeviceManager
new node = record { node_id = node; devices = []; subscriptions = []; topic_subscribers = [] }

unfoldable pub is_online : (ℕ → Bool) → DeviceInfo → Bool
is_online up info = elim info.connection [ none ↦ false | some c ↦ up c ]

abbrev call : Bool → RedisCall → List RedisCall
call linked c = if linked then c ∷ [] else []

-- The loop over the device's topics.
unfoldable pub cut_all : Bytes → List Bytes → Multimap → Multimap
cut_all id [] m = m
cut_all id (topic ∷ topics) m = cut_all id topics (cut topic id m)

unfoldable pub device_offline_locked : Bytes → DeviceManager → DeviceManager
device_offline_locked id m = record m {
  devices = erase id m.devices;
  topic_subscribers = cut_all id (members id m.subscriptions) m.topic_subscribers;
  subscriptions = erase id m.subscriptions;
}

unfoldable pub device_online :
    Bool → ℕ → Bytes → ℕ → ℕ → Bytes → Bytes → Bytes → DeviceManager → Step
device_online linked now id conn keep_alive username device_type firmware_ver m = (
  record m {
    devices =
        insert id
          (record {
            client_id = id;
            username = username;
            gateway_node_id = m.node_id;
            last_heartbeat = now;
            online_time = now;
            keep_alive = keep_alive;
            connection = some conn;
            device_type = device_type;
            firmware_ver = firmware_ver;
            region = [];
          })
          m.devices;
  },
  call linked (register_device id m.node_id keep_alive),
)

unfoldable pub device_offline : Bool → Bytes → DeviceManager → Step
unfolding device_offline_locked
device_offline linked id m = (device_offline_locked id m, call linked (unregister_device id))

abbrev beaten : ℕ → Bytes → Option DeviceInfo → DeviceManager → DeviceManager
beaten now id none m = m
beaten now id (some info) m = record m {
  devices = insert id (record info { last_heartbeat = now }) m.devices;
}

unfoldable pub update_heartbeat : Bool → ℕ → Bytes → DeviceManager → Step
update_heartbeat linked now id m =
    (beaten now id (lookup id m.devices) m, call linked (update_device_heartbeat id))

abbrev online_only : (ℕ → Bool) → Option DeviceInfo → Option DeviceInfo
online_only up none = none
online_only up (some info) = if is_online up info then some info else none

unfoldable pub find_device : (ℕ → Bool) → Bytes → DeviceManager → Option DeviceInfo
find_device up id m = online_only up (lookup id m.devices)

-- `registry` is RedisClient::getDeviceGateway.
unfoldable pub find_device_node :
    (ℕ → Bool) → Bool → (Bytes → Bytes) → Bytes → DeviceManager → Bytes
unfolding find_device
find_device_node up linked registry id m = elim (find_device up id m) [
  | some info ↦ m.node_id
  | none ↦ if linked then registry id else []
]

unfoldable pub subscribe : Bytes → Bytes → DeviceManager → DeviceManager
subscribe id topic m = record m {
  subscriptions = put id topic m.subscriptions;
  topic_subscribers = put topic id m.topic_subscribers;
}

-- `find`, `erase` and `empty` in both maps.
unfoldable pub unsubscribe : Bytes → Bytes → DeviceManager → DeviceManager
unsubscribe id topic m = record m {
  subscriptions = cut id topic m.subscriptions;
  topic_subscribers = cut topic id m.topic_subscribers;
}

abbrev connection_of : Option DeviceInfo → Option ℕ
connection_of none = none
connection_of (some info) = info.connection

abbrev pub pushed : Option ℕ → List ℕ → List ℕ
pushed none out = out
pushed (some c) out = c ∷ out

-- The connection of a device that is online.
unfoldable pub online_connection : (ℕ → Bool) → Bytes → DeviceManager → Option ℕ
unfolding find_device
online_connection up id m = connection_of (find_device up id m)

unfoldable pub connections : (ℕ → Bool) → List Bytes → DeviceManager → List ℕ
connections up [] m = []
connections up (id ∷ ids) m = pushed (online_connection up id m) (connections up ids m)

unfoldable pub get_subscribers : (ℕ → Bool) → Bytes → DeviceManager → List ℕ
get_subscribers up topic m = connections up (members topic m.topic_subscribers) m

-- elapsed > keepAlive * 1.5, in seconds, on doubles: twice both sides in microseconds, where no rounding
-- is needed.
unfoldable pub is_overdue : ℕ → DeviceInfo → Bool
is_overdue now info = ltb (info.keep_alive * 3 * 1000000) ((now - info.last_heartbeat) * 2)

unfoldable pub overdue : ℕ → List (Bytes × DeviceInfo) → List Bytes
overdue now [] = []
overdue now ((id, info) ∷ rest) =
    if is_overdue now info then id ∷ overdue now rest else overdue now rest

unfoldable pub drop_devices : List Bytes → DeviceManager → DeviceManager
unfolding device_offline_locked
drop_devices [] m = m
drop_devices (id ∷ ids) m = drop_devices ids (device_offline_locked id m)

abbrev unregister_all : Bool → List Bytes → List RedisCall
unregister_all linked [] = []
unregister_all linked (id ∷ ids) = call linked (unregister_device id) ++ unregister_all linked ids

unfoldable pub check_heartbeat_timeout : Bool → ℕ → DeviceManager → Step × List Bytes
check_heartbeat_timeout linked now m =
    let ids = overdue now m.devices in ((drop_devices ids m, unregister_all linked ids), ids)

-- `count` is RedisClient::deviceCount.
unfoldable pub online_count : Bool → ℕ → DeviceManager → ℕ
online_count linked count m = if linked then count else length m.devices

unfoldable pub get_all_local_devices : DeviceManager → List DeviceInfo
get_all_local_devices m = infos m.devices
  where
    infos : List (Bytes × DeviceInfo) → List DeviceInfo
    infos [] = []
    infos ((id, info) ∷ rest) = info ∷ infos rest
