-- ===== src/Discovery/Goodbye.antt =====
-- The packet with which src/zeroconf/mdns_service.cpp takes a service back, as
-- src/zeroconf/mdns_client.cpp of another host takes it.
use winpinator.Prelude.{
  ℕ, ◌≡◌, ◌≢◌, refl, sym, ap, ◌∙◌, false, List, [], ◌∷◌, Text, text_eq, text_eq_refl, text_eq_ne,
  none, All,
}
use winpinator.Discovery.Client.{
  Record, ptr, srv, a, aaaa, txt, removed, Client, ptr_removed, on_ptr, last_differs, on_srv,
  on_txt, query_callback, ignored_name, tell, tell_removed, process_added, process_events,
  take_records, receive_packet,
}
use winpinator.Discovery.Keeping.{put_self}
use winpinator.Discovery.Details.{IsDetail, details-IsDetail}
use winpinator.Discovery.Responder.{
  hostname_qualified, Service, service_name, service_instance, record_ptr, record_srv, details,
  announcement,
}

-- The service has been taken back, and the listener is not told yet.
record Leaving (name : Text) (before c : Client) : Type 0 where
  gone : c.active_services name ≡ none
  no_queue : c.added_services ≡ []
  leaving : c.removed_services ≡ name ∷ []
  same_heard : c.heard ≡ before.heard
  same_type : c.srv_type ≡ before.srv_type
  same_host : c.ignored_host ≡ before.ignored_host

events_removed :
    (name : Text) (c : Client)
    → c.added_services ≡ []
    → c.removed_services ≡ name ∷ []
    → name ≢ ignored_name c
    → process_events c ≡ record c { removed_services = []; heard = removed name ∷ c.heard }
unfolding process_events process_added tell_removed tell
events_removed name c no_queue leaving foreign =
    let shown : text_eq name (ignored_name c) ≡ false = text_eq_ne name (ignored_name c) foreign in
    rw no_queue (rw leaving (rw shown refl))

pub ignored_same :
    (b c : Client)
    → c.ignored_host ≡ b.ignored_host
    → c.srv_type ≡ b.srv_type
    → ignored_name c ≡ ignored_name b
unfolding ignored_name
ignored_same b c e f = rw (e, f) refl

module _ (name : Text) (before : Client) where
  srv-Leaving :
      (host : Text) (port : ℕ) (c : Client)
      → Leaving name before c
      → Leaving name before (query_callback (srv name host port) c)
  unfolding query_callback on_srv
  srv-Leaving host port c l = rw (l.gone, on_srv) l

  callback-Leaving :
      (r : Record) (c : Client)
      → IsDetail name r
      → Leaving name before c
      → Leaving name before (query_callback r c)
  unfolding query_callback on_txt
  callback-Leaving (txt entry texts) c same l = rw (ap c.active_services same ∙ l.gone, on_txt) l
  callback-Leaving (a entry ttl address) c same l = record {
    gone = l.gone;
    no_queue = l.no_queue;
    leaving = l.leaving;
    same_heard = l.same_heard;
    same_type = l.same_type;
    same_host = l.same_host;
  }
  callback-Leaving (aaaa entry ttl address) c same l = record {
    gone = l.gone;
    no_queue = l.no_queue;
    leaving = l.leaving;
    same_heard = l.same_heard;
    same_type = l.same_type;
    same_host = l.same_host;
  }
  callback-Leaving _ c same l = absurd same

  take-Leaving :
      (rs : List Record) (c : Client)
      → All (IsDetail name) rs
      → Leaving name before c
      → Leaving name before (take_records rs c)
  unfolding take_records
  take-Leaving [] c h l = l
  take-Leaving (r ∷ rs) c (h, hs) l =
      take-Leaving rs (query_callback r c) hs (callback-Leaving r c h l)

  events-Leaving :
      (c : Client)
      → name ≢ ignored_name before
      → Leaving name before c
      → ((process_events c).heard ≡ removed name ∷ before.heard)
        × ((process_events c).active_services name ≡ none)
  events-Leaving c foreign l =
      let same = ignored_same before c l.same_host l.same_type in
      let apart : name ≢ ignored_name c = λ e. foreign (e ∙ same) in
      rw (events_removed name c l.no_queue l.leaving apart)
        (ap (◌∷◌ (removed name)) l.same_heard, l.gone)

ptr_removed-Leaving :
    (name : Text) (c : Client)
    → c.added_services ≡ []
    → c.removed_services ≡ []
    → Leaving name c (ptr_removed name c)
unfolding ptr_removed last_differs
ptr_removed-Leaving name c no_queue no_removed = record {
  gone = put_self name none c.active_services;
  no_queue = no_queue;
  leaving = rw no_removed refl;
  same_heard = refl;
  same_type = refl;
  same_host = refl;
}

goodbye_step :
    (name : Text) (c : Client) → query_callback (ptr c.srv_type 0 name) c ≡ ptr_removed name c
unfolding query_callback on_ptr
goodbye_step name c = rw (text_eq_refl c.srv_type) refl

receive_parts :
    (s : Service) (c : Client)
    → receive_packet (announcement 0 s) c
      ≡ process_events (
          take_records
            (record_srv s ∷ details 0 s)
            (query_callback (ptr (service_name s) 0 (service_instance s)) c))
unfolding receive_packet take_records announcement record_ptr
receive_parts s c = refl

-- The packet that a host sends as it takes its service back: a client of the same service type, with
-- nothing waiting, forgets the service and tells its listener exactly once, where the service is not its
-- own.
pub announcement-goodbye :
    (s : Service) (c : Client)
    → c.srv_type ≡ service_name s
    → c.added_services ≡ []
    → c.removed_services ≡ []
    → service_instance s ≢ ignored_name c
    → ((receive_packet (announcement 0 s) c).heard ≡ removed (service_instance s) ∷ c.heard)
      × ((receive_packet (announcement 0 s) c).active_services (service_instance s) ≡ none)
announcement-goodbye s c same_type no_queue no_removed foreign =
    let name = service_instance s in
    let first = ptr_removed-Leaving name c no_queue no_removed in
    let gone = ptr_removed name c in
    let rest = take_records (record_srv s ∷ details 0 s) in
    let named = sym (ap (λ t. query_callback (ptr t 0 name) c) same_type) ∙ goodbye_step name c in
    let l : Leaving name c (rest gone) =
      unfold take_records record_srv in
      take-Leaving name c (details 0 s)
        (query_callback (srv name (hostname_qualified s) s.port) gone) (details-IsDetail 0 s)
        (srv-Leaving name c (hostname_qualified s) s.port gone first) in
    rw (receive_parts s c, named) (events-Leaving name c (rest gone) foreign l)
