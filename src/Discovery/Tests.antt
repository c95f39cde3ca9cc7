-- ===== src/Discovery/Tests.antt =====
-- Hosts that answer, announce themselves and leave, for src/zeroconf.
use winpinator.Prelude.{
  ℕ, ◌≡◌, ◌≢◌, refl, true, false, List, [], ◌∷◌, Text, codes, text_eq, ne_of_text_eq, Option, none,
  some, sym, inr, ◌∙◌, take,
}
use winpinator.Remotes.Types.{MdnsServiceData}
use winpinator.Discovery.Client.{
  ptr, txt, added, removed, Client, put, new_service, ignored_name, receive_packet, receive_packets,
}
use winpinator.Discovery.Keeping.{put_self, put_cases}
use winpinator.Discovery.Unresolved.{NoAddress, NamedAs, Unheard}
use winpinator.Discovery.Announcing.{announcement-heard}
use winpinator.Discovery.Responder.{
  Service, Query, asked_any, service_name, service_instance, announcement, start_ttl, with_dot,
  printed, hostname_qualified,
}
use winpinator.Discovery.Goodbye.{announcement-goodbye}
use winpinator.Discovery.Meeting.{announcement-Unheard}
use winpinator.Discovery.Sockets.{
  Address, v4, Adapter, adapters, Opened, open_sockets, client_skips, max_sockets,
}
use winpinator.Discovery.Opening.{public_addresses, sockets_of, open_sockets-public}
use winpinator.Discovery.Repeats.{Settled, announcements, receive_packets-Settled}

abbrev service_type : Text
service_type = codes "_warpinator._tcp.local."

abbrev peer : Text
peer = codes "PEER._warpinator._tcp.local."

abbrev host : Text
host = codes "peer.local."

abbrev address : Text
address = codes "10.0.0.2"

abbrev texts : List (Text × Text)
texts = (codes "type", codes "real") ∷ (codes "hostname", codes "peer-host") ∷ []

abbrev listening : Client
listening = record {
  srv_type = service_type;
  ignored_host = codes "SELF";
  active_services = λ k. none;
  added_services = [];
  removed_services = [];
  a_records = λ k. none;
  aaaa_records = λ k. none;
  heard = [];
}

peer_foreign : peer ≢ ignored_name listening
unfolding ignored_name text_eq
peer_foreign = ne_of_text_eq peer (ignored_name listening) refl

-- The address of the other host has come in an earlier packet.
abbrev acquainted : Client
acquainted = record listening {
  a_records = put (codes "PEER.local.") (some address) listening.a_records;
}

-- The service is known without an address; then the address comes, and the texts.
abbrev pending : Client
pending = record listening {
  active_services = put peer (some (new_service peer)) listening.active_services;
  added_services = peer ∷ [];
}

pending-Unheard : Unheard peer pending
unfolding new_service
pending-Unheard = record {
  named = λ k.
      put_cases (NamedAs k) peer k (some (new_service peer)) listening.active_services sym
        (λ ne. tt);
  no_address =
      put_cases NoAddress peer peer (some (new_service peer)) listening.active_services (λ e. refl)
        (λ ne. tt);
  not_added = tt;
}

-- The announced service, before its texts.
abbrev bare : MdnsServiceData
bare = record {
  name = peer;
  srv_name = host;
  port = 42000;
  ipv4 = address;
  ipv6 = [];
  txt_records = λ k. none;
}

abbrev announced : Client
announced = record listening {
  active_services = put peer (some bare) listening.active_services;
  heard = added bare ∷ [];
}

announced-Settled : Settled peer (announcements peer announced.heard) announced
announced-Settled = record {
  named = λ k. put_cases (NamedAs k) peer k (some bare) listening.active_services sym (λ ne. tt);
  known = rw (put_self peer (some bare) listening.active_services) tt;
  unqueued = tt;
  all_told = refl;
}

receive_packets-Settled_example :
    announcements peer
      (receive_packets
        ((txt peer texts ∷ []) ∷ (ptr service_type 120 peer ∷ []) ∷ [])
        announced).heard
    ≡ announcements peer announced.heard
receive_packets-Settled_example =
    receive_packets-Settled peer ((txt peer texts ∷ []) ∷ (ptr service_type 120 peer ∷ []) ∷ [])
      announced ((tt, tt), ((inr refl, tt), tt)) announced-Settled

-- The service of another host, with an IPv4 address.
abbrev own : Service
own = record {
  srv_type = codes "_warpinator._tcp.local";
  hostname = codes "PEER";
  port = 42000;
  txt_records = texts;
  address_ipv4 = some address;
  address_ipv6 = none;
}

abbrev any_query : Query
any_query = record {
  is_question = true;
  asked = asked_any;
  name = codes "PEER.local.";
  unicast = true;
}

own_name : service_instance own ≡ peer
unfolding service_instance service_name with_dot printed
own_name = refl

own-Unheard : Unheard (service_instance own) listening
own-Unheard = record { named = λ k. tt; no_address = tt; not_added = tt }

announcement-Unheard_example :
    Unheard
      (service_instance own)
      (receive_packets (announcement start_ttl own ∷ (txt peer texts ∷ []) ∷ []) listening)
announcement-Unheard_example =
    announcement-Unheard start_ttl own listening ((txt peer texts ∷ []) ∷ []) refl refl own-Unheard
      ((tt, tt), tt)

own_foreign : service_instance own ≢ ignored_name listening
own_foreign = λ e. peer_foreign (sym own_name ∙ e)

own_type : listening.srv_type ≡ service_name own
unfolding service_name with_dot
own_type = refl

announcement-goodbye_example :
    ((receive_packet (announcement 0 own) listening).heard ≡ removed (service_instance own) ∷ [])
    × ((receive_packet (announcement 0 own) listening).active_services (service_instance own)
        ≡ none)
announcement-goodbye_example = announcement-goodbye own listening own_type refl refl own_foreign

own_host : hostname_qualified own ≡ codes "PEER.local."
unfolding hostname_qualified printed
own_host = refl

own_address : acquainted.a_records (hostname_qualified own) ≡ some address
own_address = rw own_host (put_self (codes "PEER.local.") (some address) listening.a_records)

acquainted_foreign : service_instance own ≢ ignored_name acquainted
unfolding ignored_name
acquainted_foreign = own_foreign

announcement-heard_example :
    (d : MdnsServiceData) × ((receive_packet (announcement start_ttl own) acquainted).heard
      ≡ added d ∷ [])
    × (d.name ≡ service_instance own)
    × (d.srv_name ≡ hostname_qualified own)
    × (d.port ≡ 42000)
    × (d.ipv4 ≡ address)
announcement-heard_example =
    announcement-heard start_ttl own address acquainted refl own_type refl own_address refl refl
      refl acquainted_foreign

abbrev lan : Adapter
lan = record {
  name = codes "lan";
  is_teredo = false;
  is_up = true;
  unicasts =
      record { address = v4 127 0 0 1; preferred = true }
      ∷ record { address = v4 10 0 0 1; preferred = true }
      ∷ [];
}

abbrev unopened : Opened
unopened = record {
  first_ipv4 = false;
  first_ipv6 = false;
  service_address_ipv4 = none;
  service_address_ipv6 = none;
  has_ipv4 = false;
  has_ipv6 = false;
  sockets = [];
}

abbrev bind_seven : ℕ → Address → Option ℕ
bind_seven port _ = some 7

open_sockets-public_example :
    (open_sockets bind_seven 0 max_sockets client_skips (λ n. adapters (lan ∷ [])) unopened).sockets
    ≡ take max_sockets (sockets_of (bind_seven 0) (public_addresses client_skips (lan ∷ [])))
open_sockets-public_example =
    open_sockets-public max_sockets bind_seven 0 client_skips (λ n. adapters (lan ∷ [])) (lan ∷ [])
      unopened refl
