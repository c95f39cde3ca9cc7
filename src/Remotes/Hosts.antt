-- ===== src/Remotes/Hosts.antt =====
-- The host list of src/service/remote_manager.cpp.
-- `m_hosts` only grows until `stop`, so a `RemoteInfoPtr` is a place in the list. The thread that
-- `processAddHost` starts is a parameter of the system: the model keeps the list that it leaves.
use winpinator.Prelude.{
  ℕ, zero, suc, ◌+◌, ◌-◌, ◌%◌, Bool, true, false, List, [], ◌∷◌, ◌++◌, Text, codes, text_eq, Option,
  none, some, ltb, ◌&&◌, not, if◌then◌else◌,
}
use winpinator.Prelude.Int.{ℤ, pos, negsuc}
use winpinator.Remotes.Types.{
  RemoteStatus, MdnsIpPair, MdnsServiceData, RemoteInfo, ip_pair_eq, registration,
}
use winpinator.Remotes.Naming.{strip_service_from_ident}

abbrev pub Key : Type 0
Key = Text × MdnsIpPair

unfoldable pub key_eq : Key → Key → Bool
key_eq a b = text_eq a.0 b.0 && ip_pair_eq a.1 b.1

pub record Manager : Type 0 where
  pub hosts : List RemoteInfo
  pub host_set : List Key
  pub srv_type : Text

-- `m_hostSet.find`
unfoldable pub in_set : Key → List Key → Bool
in_set k [] = false
in_set k (j ∷ js) = if key_eq k j then true else in_set k js

abbrev pub key_of : RemoteInfo → Key
key_of h = (h.hostname, h.ips)

-- What the loop over the hosts of a known key finds: nothing, a host whose thread still runs, which
-- ends the call, or the last host with a stopped thread, which is used again.
pub data Search : Type 0 where
  absent running : Search
  stopped : ℕ → Search

-- One round of the loop after those of the later hosts; the place is counted from the current one.
unfoldable pub search_step : Bool → Bool → Search → Search
search_step false stopping absent = absent
search_step false stopping running = running
search_step false stopping (stopped i) = stopped (suc i)
search_step true false rest = running
search_step true true absent = stopped 0
search_step true true running = running
search_step true true (stopped i) = stopped (suc i)

unfoldable pub search_hosts : Key → List RemoteInfo → Search
unfolding search_step
search_hosts k [] = absent
search_hosts k (h ∷ hs) = search_step (key_eq k (key_of h)) h.stopping (search_hosts k hs)

abbrev or_else {ℓ} : {A : Type ℓ} → A → Option A → A
or_else d none = d
or_else d (some a) = a

-- A conversion to `uint16_t`.
unfoldable pub to_uint16 : ℤ → ℕ
to_uint16 (pos n) = n % 65536
to_uint16 (negsuc n) = (65536 - (n + 1) % 65536) % 65536

-- The api version of a record, held between 1 and 2.
unfoldable pub clamp_version : ℤ → ℕ
clamp_version (pos n) = if ltb n 1 then 1 else if ltb 2 n then 2 else n
clamp_version (negsuc n) = 1

abbrev pub new_info : Text → MdnsIpPair → RemoteInfo
new_info hostname ips = record {
  state = RemoteStatus.offline;
  id = [];
  ips = ips;
  port = 0;
  auth_port = 0;
  api_version = 0;
  os = [];
  hostname = hostname;
  full_name = [];
  stopping = false;
  busy = false;
  has_zc_presence = false;
  visible = false;
  has_stub = false;
}

-- `atoi` of the C library is a parameter.
module _ (atoi : Text → ℤ) where
  -- What `processAddHost` writes into a new or stopped host before it starts its thread.
  unfoldable pub fill_info : Text → MdnsServiceData → RemoteInfo → RemoteInfo
  unfolding to_uint16 clamp_version
  fill_info srv_type service info = record info {
    visible = false;
    id = strip_service_from_ident srv_type service.name;
    port = service.port;
    state = registration;
    busy = false;
    has_zc_presence = true;
    stopping = false;
    api_version = elim (service.txt_records (codes "api-version")) [
      | none ↦ 1
      | some v ↦ clamp_version (atoi v)
    ];
    auth_port = elim (service.txt_records (codes "auth-port")) [
      | none ↦ service.port
      | some v ↦ to_uint16 (atoi v)
    ];
    os = or_else (codes "Linux") (service.txt_records (codes "os"));
  }

  unfoldable pub update_at : ℕ → Text → MdnsServiceData → List RemoteInfo → List RemoteInfo
  update_at i srv_type service [] = []
  update_at zero srv_type service (h ∷ hs) = fill_info srv_type service h ∷ hs
  update_at (suc i) srv_type service (h ∷ hs) = h ∷ update_at i srv_type service hs

  unfoldable pub add_known : MdnsServiceData → Manager → Search → Manager
  unfolding update_at
  add_known service m absent = m
  add_known service m running = m
  add_known service m (stopped i) = record m { hosts = update_at i m.srv_type service m.hosts }

  unfoldable pub add_host : Text → MdnsServiceData → Manager → Manager
  add_host hostname service m =
      let ips : MdnsIpPair = record { valid = true; ipv4 = service.ipv4; ipv6 = service.ipv6 } in
      let k : Key = (hostname, ips) in
      if in_set k m.host_set then add_known service m (search_hosts k m.hosts) else record m {
        hosts = m.hosts ++ fill_info m.srv_type service (new_info hostname ips) ∷ [];
        host_set = k ∷ m.host_set;
      }

  unfoldable pub process_add_host : MdnsServiceData → Manager → Manager
  unfolding add_host
  process_add_host service m = elim (service.txt_records (codes "type")) [
    | none ↦ m
    | some kind ↦ elim (service.txt_records (codes "hostname")) [
      | none ↦ m
      | some hostname ↦ if not (text_eq kind (codes "real")) then m else add_host hostname service m
    ]
  ]

-- The loop of `processRemoveHost`.
unfoldable pub clear_presence : Text → List RemoteInfo → List RemoteInfo
clear_presence id [] = []
clear_presence id (h ∷ hs) =
    (if text_eq h.id id then record h { has_zc_presence = false } else h) ∷ clear_presence id hs

unfoldable pub process_remove_host : Text → Manager → Manager
unfolding clear_presence
process_remove_host id m = record m {
  hosts = clear_presence (strip_service_from_ident m.srv_type id) m.hosts;
}

unfoldable pub has_id : Text → List RemoteInfo → Bool
has_id id [] = false
has_id id (h ∷ hs) = if text_eq h.id id then true else has_id id hs

unfoldable pub is_host_available : Text → Bool → Manager → Bool
is_host_available id strip m =
    has_id (if strip then strip_service_from_ident m.srv_type id else id) m.hosts

unfoldable pub find_host : Text → List RemoteInfo → Option RemoteInfo
find_host id [] = none
find_host id (h ∷ hs) = if text_eq h.id id then some h else find_host id hs

unfoldable pub get_remote_info : Text → Bool → Manager → Option RemoteInfo
get_remote_info id strip m =
    find_host (if strip then strip_service_from_ident m.srv_type id else id) m.hosts

unfoldable pub visible_hosts : List RemoteInfo → List RemoteInfo
visible_hosts [] = []
visible_hosts (h ∷ hs) = if h.visible then h ∷ visible_hosts hs else visible_hosts hs

unfoldable pub generate_current_host_list : Manager → List RemoteInfo
unfolding visible_hosts
generate_current_host_list m = visible_hosts m.hosts

-- `_getVisibleHostsCount`
unfoldable pub count_visible : ℕ → List RemoteInfo → ℕ
count_visible count [] = count
count_visible count (h ∷ hs) = count_visible (if h.visible then count + 1 else count) hs

unfoldable pub get_visible_hosts_count : Manager → ℕ
unfolding count_visible
get_visible_hosts_count m = count_visible 0 m.hosts

-- `stop`, when every thread has been told to stop and has ended.
unfoldable pub stop : Manager → Manager
stop m = record m { hosts = [] }
