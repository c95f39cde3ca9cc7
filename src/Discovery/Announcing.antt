-- ===== src/Discovery/Announcing.antt =====
-- How src/zeroconf/mdns_client.cpp takes the announcement of src/zeroconf/mdns_service.cpp where it knows
-- the address of the host already.
use winpinator.Prelude.{
  ℕ, ◌≡◌, ◌≢◌, refl, sym, ap, ◌∙◌, true, false, List, [], ◌∷◌, ◌++◌, Text, text_eq, text_eq_refl,
  text_eq_ne, Option, none, some, ltb, All, subst,
}
use winpinator.Remotes.Types.{MdnsServiceData}
use winpinator.Discovery.Client.{
  Record, ptr, srv, a, aaaa, txt, added, Client, put, new_service, ptr_added, on_ptr, resolved,
  on_srv, on_txt, store_texts, query_callback, has_address, is_empty, ignored_name, tell, announce,
  process_added, tell_removed, process_events, take_records, receive_packet,
}
use winpinator.Discovery.Keeping.{put_self}
use winpinator.Discovery.Details.{IsDetail, details-IsDetail}
use winpinator.Discovery.Goodbye.{ignored_same}
use winpinator.Discovery.Responder.{
  Service, service_name, service_instance, hostname_qualified, record_ptr, record_srv, details,
  announcement,
}

-- The rounds of events after a packet that has brought one service.
events_step :
    (name : Text) (c : Client) (d : MdnsServiceData)
    → c.active_services name ≡ some d
    → has_address d ≡ true
    → name ≢ ignored_name c
    → c.added_services ≡ name ∷ []
    → c.removed_services ≡ []
    → process_events c
      ≡ record c { added_services = []; removed_services = []; heard = added d ∷ c.heard }
unfolding process_events process_added tell_removed announce tell
events_step name c d known valid foreign queue no_removed =
    let shown : text_eq name (ignored_name c) ≡ false = text_eq_ne name (ignored_name c) foreign in
    rw queue (rw (known, announce) (rw valid (rw shown (rw no_removed refl))))

-- What a service is known to be.
abbrev Describes : Text → Text → ℕ → Text → MdnsServiceData → Type 0
Describes name host port ip d =
    (d.name ≡ name) × (d.srv_name ≡ host) × (d.port ≡ port) × (d.ipv4 ≡ ip)

-- The service waits in the queue, with an address.
record Coming (name host : Text) (port : ℕ) (ip : Text) (before c : Client) : Type 0 where
  data_known : MdnsServiceData
  known : c.active_services name ≡ some data_known
  described : Describes name host port ip data_known
  queued : c.added_services ≡ name ∷ []
  no_removed : c.removed_services ≡ []
  same_heard : c.heard ≡ before.heard
  same_type : c.srv_type ≡ before.srv_type
  same_host : c.ignored_host ≡ before.ignored_host

module _ (name host : Text) (port : ℕ) (ip : Text) (before : Client) where
  abbrev Waiting : Client → Type 0
  Waiting = Coming name host port ip before

  addressed-Coming :
      (ipv4 ipv6 : Text → Option Text) (c : Client)
      → Waiting c
      → Waiting (record c { a_records = ipv4; aaaa_records = ipv6 })
  addressed-Coming ipv4 ipv6 c w = record {
    data_known = w.data_known;
    known = w.known;
    described = w.described;
    queued = w.queued;
    no_removed = w.no_removed;
    same_heard = w.same_heard;
    same_type = w.same_type;
    same_host = w.same_host;
  }

  changed-Coming :
      (d : MdnsServiceData) (c : Client)
      → Describes name host port ip d
      → Waiting c
      → Waiting (record c { active_services = put name (some d) c.active_services })
  changed-Coming d c described w = record {
    data_known = d;
    known = put_self name (some d) c.active_services;
    described = described;
    queued = w.queued;
    no_removed = w.no_removed;
    same_heard = w.same_heard;
    same_type = w.same_type;
    same_host = w.same_host;
  }

  txt-Coming : (texts : List (Text × Text)) (c : Client) → Waiting c → Waiting (on_txt name texts c)
  unfolding on_txt
  txt-Coming texts c w =
      let d = w.data_known in
      rw (w.known, on_txt)
        (changed-Coming (record d { txt_records = store_texts texts d.txt_records }) c w.described
          w)

  callback-Coming :
      (r : Record) (c : Client) → IsDetail name r → Waiting c → Waiting (query_callback r c)
  unfolding query_callback
  callback-Coming (a entry ttl address) c h w = addressed-Coming _ c.aaaa_records c w
  callback-Coming (aaaa entry ttl address) c h w = addressed-Coming c.a_records _ c w
  callback-Coming (txt entry texts) c h w =
      subst (λ e. Waiting (on_txt e texts c)) (sym h) (txt-Coming texts c w)
  callback-Coming _ c h w = absurd h

  take-Coming :
      (rs : List Record) (c : Client)
      → All (IsDetail name) rs
      → Waiting c
      → Waiting (take_records rs c)
  unfolding take_records
  take-Coming [] c h w = w
  take-Coming (r ∷ rs) c (h, hs) w =
      take-Coming rs (query_callback r c) hs (callback-Coming r c h w)

  -- The first two records, for a host whose address is known.
  named-Coming :
      (ttl : ℕ)
      → ltb 0 ttl ≡ true
      → before.active_services name ≡ none
      → before.a_records host ≡ some ip
      → before.added_services ≡ []
      → before.removed_services ≡ []
      → Waiting (
          query_callback
            (srv name host port)
            (query_callback (ptr before.srv_type ttl name) before))
  unfolding query_callback on_ptr on_srv resolved new_service
  named-Coming ttl lives unknown address no_queue no_removed =
      let new = new_service name in
      let named = record before {
        active_services = put name (some new) before.active_services;
        added_services = before.added_services ++ name ∷ [];
      } in
      let first : ptr_added name before ≡ named =
        unfold ptr_added in rw (unknown, ptr_added) refl in
      let d = resolved host port named new in
      let last : on_srv name host port named
          ≡ record named { active_services = put name (some d) named.active_services } =
        rw (put_self name (some new) before.active_services, on_srv) refl in
      rw (text_eq_refl before.srv_type, lives, first, last)
        record {
          data_known = d;
          known = put_self name (some d) named.active_services;
          described = (refl, refl, refl, rw address refl);
          queued = rw no_queue refl;
          no_removed = no_removed;
          same_heard = refl;
          same_type = refl;
          same_host = refl;
        }

  events-Coming :
      (c : Client)
      → is_empty ip ≡ false
      → name ≢ ignored_name before
      → Waiting c
      → (d : MdnsServiceData) × ((process_events c).heard ≡ added d ∷ before.heard)
        × Describes name host port ip d
  events-Coming c some_ip foreign w =
      let same = ignored_same before c w.same_host w.same_type in
      let valid : has_address w.data_known ≡ true = rw (w.described.3, some_ip) refl in
      (
        w.data_known,
        rw
            (events_step name c w.data_known w.known valid (λ e. foreign (e ∙ same)) w.queued
              w.no_removed)
            (ap (◌∷◌ (added w.data_known)) w.same_heard),
        w.described,
      )

packet_parts :
    (ttl : ℕ) (s : Service) (c : Client)
    → receive_packet (announcement ttl s) c
      ≡ process_events (
          take_records (details ttl s) (
            query_callback
              (srv (service_instance s) (hostname_qualified s) s.port)
              (query_callback (ptr (service_name s) ttl (service_instance s)) c)))
unfolding receive_packet take_records announcement record_ptr record_srv
packet_parts ttl s c = refl

-- The packet with which a host announces its service, for a client that searches for services of its
-- type, knows a nonempty IPv4 address of the host from an earlier packet, does not know the service and
-- has nothing queued: the listener hears of the service exactly once, with its name, host, port and this
-- address, where the service is not the client's own and the packet does not take it back.
pub announcement-heard :
    (ttl : ℕ) (s : Service) (ip : Text) (c : Client)
    → ltb 0 ttl ≡ true
    → c.srv_type ≡ service_name s
    → c.active_services (service_instance s) ≡ none
    → c.a_records (hostname_qualified s) ≡ some ip
    → is_empty ip ≡ false
    → c.added_services ≡ []
    → c.removed_services ≡ []
    → service_instance s ≢ ignored_name c
    → (d : MdnsServiceData) × ((receive_packet (announcement ttl s) c).heard ≡ added d ∷ c.heard)
      × (d.name ≡ service_instance s)
      × (d.srv_name ≡ hostname_qualified s)
      × (d.port ≡ s.port)
      × (d.ipv4 ≡ ip)
announcement-heard ttl s ip c lives same_type unknown address some_ip no_queue no_removed foreign =
    let name = service_instance s in
    let host = hostname_qualified s in
    let first =
      subst
        (λ t.
          Coming name host s.port ip c
            (query_callback (srv name host s.port) (query_callback (ptr t ttl name) c)))
        same_type
        (named-Coming name host s.port ip c ttl lives unknown address no_queue no_removed) in
    let start =
      query_callback (srv name host s.port) (query_callback (ptr (service_name s) ttl name) c) in
    let w =
      take-Coming name host s.port ip c (details ttl s) start (details-IsDetail ttl s) first in
    let (d, told, described) =
      events-Coming name host s.port ip c (take_records (details ttl s) start) some_ip foreign w in
    rw (packet_parts ttl s c) (d, told, described.0, described.1, described.2, described.3)
