-- ===== src/Remotes/Tests.antt =====
-- Hosts that are announced, announced again and lost, at inputs like those of a small network.
use winpinator.Prelude.{◌≡◌, refl, true, [], ◌∷◌, Text, codes, text_eq, none, some, if◌then◌else◌}
use winpinator.Prelude.Int.{ℤ, pos}
use winpinator.Remotes.Types.{MdnsIpPair, MdnsServiceData, ip_pair_eq}
use winpinator.Remotes.Hosts.{Manager, in_set, process_add_host, stop, key_eq}
use winpinator.Remotes.Laws.{IsValid, process_add_host-IsValid}
use winpinator.Remotes.Lookup.{stop_ignores}

abbrev service_type : Text
service_type = codes "_warpinator._tcp.local."

abbrev no_hosts : Manager
no_hosts = record { hosts = []; host_set = []; srv_type = service_type }

abbrev no_hosts-IsValid : IsValid no_hosts
no_hosts-IsValid = record { known = tt; distinct = tt }

-- `atoi` on the texts used here.
abbrev read_number : Text → ℤ
read_number t = if text_eq t (codes "2") then pos 2 else pos 0

abbrev service : MdnsServiceData
service = record {
  name = codes "peer._warpinator._tcp.local.";
  srv_name = codes "peer.local.";
  port = 42000;
  ipv4 = codes "10.0.0.2";
  ipv6 = [];
  txt_records = λ k.
      if text_eq k (codes "type")
      then some (codes "real")
      else if text_eq k (codes "hostname")
      then some (codes "peer-host")
      else if text_eq k (codes "api-version")
      then some (codes "2")
      else none;
}

abbrev one_host : Manager
one_host = process_add_host read_number service no_hosts

service_real : service.txt_records (codes "type") ≡ some (codes "real")
unfolding text_eq
service_real = refl

service_named : service.txt_records (codes "hostname") ≡ some (codes "peer-host")
unfolding text_eq
service_named = refl

abbrev service_ips : MdnsIpPair
service_ips = record { valid = true; ipv4 = codes "10.0.0.2"; ipv6 = [] }

process_add_host-IsValid_example : IsValid one_host
process_add_host-IsValid_example =
    process_add_host-IsValid read_number service no_hosts no_hosts-IsValid

abbrev known_host : Manager
known_host = record no_hosts { host_set = (codes "peer-host", service_ips) ∷ [] }

stop_ignores_example : process_add_host read_number service (stop known_host) ≡ stop known_host
unfolding in_set key_eq text_eq ip_pair_eq
stop_ignores_example =
    stop_ignores read_number service (codes "peer-host") known_host service_real service_named refl
