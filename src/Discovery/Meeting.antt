-- ===== src/Discovery/Meeting.antt =====
-- The packets that src/zeroconf/mdns_service.cpp sends, as src/zeroconf/mdns_client.cpp of another host
-- takes them.
use winpinator.Prelude.{
  ℕ, ◌≡◌, sym, ap, ◌∙◌, inl, inr, false, List, ◌∷◌, Text, none, some, All, arith, Option-cases,
  subst,
}
use winpinator.Discovery.Client.{
  Record, a, aaaa, txt, Client, ptr_added, ptr_removed, on_ptr, resolved, on_srv, query_callback,
  has_address, take_records, receive_packet, receive_packets,
}
use winpinator.Discovery.Keeping.{put_cases, take_records-keeps, process_events-keeps}
use winpinator.Discovery.Unresolved.{
  NamedAs, NoAddress, NotSrv, Unheard, query_callback-Unheard, rounds-Unheard,
  receive_packets-Unheard,
}
use winpinator.Discovery.Details.{IsDetail, details-IsDetail}
use winpinator.Discovery.Responder.{
  Service, service_name, service_instance, hostname_qualified, record_ptr, record_srv, details,
  announcement,
}

IsDetail-NotSrv : (name : Text) (r : Record) → IsDetail name r → NotSrv name r
IsDetail-NotSrv name (a entry ttl address) h = tt
IsDetail-NotSrv name (aaaa entry ttl address) h = tt
IsDetail-NotSrv name (txt entry texts) h = tt
IsDetail-NotSrv name _ h = absurd h

-- A service record whose host has no address yet.
on_srv-unknown :
    (name entry host : Text) (port : ℕ) (c : Client)
    → c.a_records host ≡ none
    → c.aaaa_records host ≡ none
    → Unheard name c
    → Unheard name (on_srv entry host port c)
unfolding on_srv resolved
on_srv-unknown name entry host port c no_a no_aaaa u =
    elim (Option-cases (c.active_services entry)) [
      | inl e ↦ rw (e, on_srv) u
      | inr (d, e) ↦
          let d' = resolved host port c d in
          let same : d.name ≡ entry = rw e at (u.named entry) in
          let lacking : entry ≡ name → has_address d' ≡ false = λ s.
            rw (no_a, no_aaaa)
              (subst NoAddress e
                (subst (λ j. NoAddress (c.active_services j)) (sym s) u.no_address)) in
          rw (e, on_srv)
            record {
              named = λ k.
                  put_cases (NamedAs k) entry k (some d') c.active_services (λ s. same ∙ sym s)
                    (λ o. u.named k);
              no_address =
                  put_cases NoAddress entry name (some d') c.active_services (λ s. lacking (sym s))
                    (λ o. u.no_address);
              not_added = u.not_added;
            }
    ]

-- A name record changes no address.
ptr_addresses :
    (entry n : Text) (ttl : ℕ) (c : Client)
    → ((on_ptr entry ttl n c).a_records ≡ c.a_records)
      × ((on_ptr entry ttl n c).aaaa_records ≡ c.aaaa_records)
unfolding on_ptr ptr_added ptr_removed
ptr_addresses entry n ttl c = ground arith

module _ (ttl : ℕ) (s : Service) (c : Client) where
  abbrev own : Text
  own = service_instance s

  packet-Unheard :
      c.a_records (hostname_qualified s) ≡ none
      → c.aaaa_records (hostname_qualified s) ≡ none
      → Unheard own c
      → Unheard own (receive_packet (announcement ttl s) c)
  unfolding receive_packet take_records announcement record_ptr record_srv query_callback
  packet-Unheard no_a no_aaaa u =
      let named = query_callback (record_ptr ttl s) c in
      let located = query_callback (record_srv s) named in
      let (same_a, same_aaaa) = ptr_addresses (service_name s) own ttl c in
      let first : Unheard own named = query_callback-Unheard own (record_ptr ttl s) c tt u in
      let second : Unheard own located =
        on_srv-unknown own own (hostname_qualified s) s.port named
          (ap (λ m. m (hostname_qualified s)) same_a ∙ no_a)
          (ap (λ m. m (hostname_qualified s)) same_aaaa ∙ no_aaaa) first in
      let rest =
        take_records-keeps (Unheard own) (rounds-Unheard own) (IsDetail own)
          (λ r d h. query_callback-Unheard own r d (IsDetail-NotSrv own r h)) (details ttl s)
          located (details-IsDetail ttl s) second in
      process_events-keeps (Unheard own) (rounds-Unheard own) (take_records (details ttl s) located)
        rest

  -- The packet with which a host announces its service does not make another host announce it that does
  -- not yet know an address of it: the address comes after the service in the packet. Nor do later packets
  -- without a service record of it.
  pub announcement-Unheard :
      (ps : List (List Record))
      → c.a_records (hostname_qualified s) ≡ none
      → c.aaaa_records (hostname_qualified s) ≡ none
      → Unheard own c
      → All (All (NotSrv own)) ps
      → Unheard own (receive_packets (announcement ttl s ∷ ps) c)
  unfolding receive_packets
  announcement-Unheard ps no_a no_aaaa u ok =
      receive_packets-Unheard own ps (receive_packet (announcement ttl s) c) ok
        (packet-Unheard no_a no_aaaa u)
