-- ===== src/Discovery/Unresolved.antt =====
-- A service that src/zeroconf/mdns_client.cpp knows without an address is never announced by address
-- records alone.
use winpinator.Prelude.{
  ℕ, ◌≡◌, ◌≢◌, refl, sym, ◌∙◌, inl, inr, true, false, not, List, [], ◌∷◌, ◌++◌, Text, text_eq,
  Option, none, some, All, ltb, Option-cases, if_cases, if◌then◌else◌, subst,
}
use mathlib.Core.Bool.{false≢true}
use winpinator.Remotes.Types.{MdnsServiceData}
use winpinator.Discovery.Client.{
  Record, ptr, srv, a, aaaa, txt, other, Heard, added, removed, Client, new_service, ptr_added,
  ptr_removed, on_ptr, resolved, on_srv, on_txt, store_texts, query_callback, has_address,
  ignored_name, tell, requeue, announce, receive_packets,
}
use winpinator.Discovery.Keeping.{put_cases, Rounds, receive_packets-keeps}

-- The service has no address, if it is known at all.
abbrev pub NoAddress : Option MdnsServiceData → Type 0
NoAddress none = Unit
NoAddress (some d) = has_address d ≡ false

abbrev pub NotAdded : Text → Heard → Type 0
NotAdded name (added d) = d.name ≢ name
NotAdded name (removed n) = Unit

abbrev pub NamedAs : Text → Option MdnsServiceData → Type 0
NamedAs k none = Unit
NamedAs k (some d) = d.name ≡ k

-- A record is not the service record of the name.
abbrev pub NotSrv : Text → Record → Type 0
NotSrv name (srv entry host port) = entry ≢ name
NotSrv name _ = Unit

pub record Unheard (name : Text) (c : Client) : Type 0 where
  pub named : (k : Text) → NamedAs k (c.active_services k)
  pub no_address : NoAddress (c.active_services name)
  pub not_added : All (NotAdded name) c.heard

module _ (name : Text) where
  ptr_added-Unheard : (n : Text) (c : Client) → Unheard name c → Unheard name (ptr_added n c)
  unfolding ptr_added new_service
  ptr_added-Unheard n c u = elim (Option-cases (c.active_services n)) [
    | inr (d, e) ↦ rw (e, ptr_added) u
    | inl e ↦
        rw (e, ptr_added)
          record {
            named = λ k.
                put_cases (NamedAs k) n k (some (new_service n)) c.active_services sym
                  (λ ne. u.named k);
            no_address =
                put_cases NoAddress n name (some (new_service n)) c.active_services (λ s. refl)
                  (λ ne. u.no_address);
            not_added = u.not_added;
          }
  ]

  ptr_removed-Unheard : (n : Text) (c : Client) → Unheard name c → Unheard name (ptr_removed n c)
  unfolding ptr_removed
  ptr_removed-Unheard n c u = record {
    named = λ k. put_cases (NamedAs k) n k none c.active_services (λ s. tt) (λ ne. u.named k);
    no_address = put_cases NoAddress n name none c.active_services (λ s. tt) (λ ne. u.no_address);
    not_added = u.not_added;
  }

  on_ptr-Unheard :
      (entry : Text) (ttl : ℕ) (n : Text) (c : Client)
      → Unheard name c
      → Unheard name (on_ptr entry ttl n c)
  unfolding on_ptr
  on_ptr-Unheard entry ttl n c u =
      if_cases (Unheard name) (text_eq entry c.srv_type)
        (if ltb 0 ttl then ptr_added n c else ptr_removed n c) c
        (λ e.
          if_cases (Unheard name) (ltb 0 ttl) (ptr_added n c) (ptr_removed n c)
            (λ f. ptr_added-Unheard n c u) (λ f. ptr_removed-Unheard n c u))
        (λ e. u)

  on_srv-Unheard :
      (entry host : Text) (port : ℕ) (c : Client)
      → entry ≢ name
      → Unheard name c
      → Unheard name (on_srv entry host port c)
  unfolding on_srv resolved
  on_srv-Unheard entry host port c ne u = elim (Option-cases (c.active_services entry)) [
    | inl e ↦ rw (e, on_srv) u
    | inr (d, e) ↦
        let same : d.name ≡ entry = rw e at (u.named entry) in
        rw (e, on_srv)
          record {
            named = λ k.
                put_cases (NamedAs k) entry k (some (resolved host port c d)) c.active_services
                  (λ s. same ∙ sym s) (λ o. u.named k);
            no_address =
                put_cases NoAddress entry name (some (resolved host port c d)) c.active_services
                  (λ s. absurd (ne (sym s))) (λ o. u.no_address);
            not_added = u.not_added;
          }
  ]

  on_txt-Unheard :
      (entry : Text) (texts : List (Text × Text)) (c : Client)
      → Unheard name c
      → Unheard name (on_txt entry texts c)
  unfolding on_txt
  on_txt-Unheard entry texts c u = elim (Option-cases (c.active_services entry)) [
    | inl e ↦ rw (e, on_txt) u
    | inr (d, e) ↦
        let d' = record d { txt_records = store_texts texts d.txt_records } in
        let same : d.name ≡ entry = rw e at (u.named entry) in
        let none_yet : entry ≡ name → has_address d ≡ false = λ s.
          subst NoAddress e (subst (λ j. NoAddress (c.active_services j)) (sym s) u.no_address) in
        rw (e, on_txt)
          record {
            named = λ k.
                put_cases (NamedAs k) entry k (some d') c.active_services (λ s. same ∙ sym s)
                  (λ o. u.named k);
            no_address =
                put_cases NoAddress entry name (some d') c.active_services (λ s. none_yet (sym s))
                  (λ o. u.no_address);
            not_added = u.not_added;
          }
  ]

  pub query_callback-Unheard :
      (r : Record) (c : Client) → NotSrv name r → Unheard name c → Unheard name (query_callback r c)
  unfolding query_callback
  query_callback-Unheard (ptr entry ttl n) c ok u = on_ptr-Unheard entry ttl n c u
  query_callback-Unheard (srv entry host port) c ok u = on_srv-Unheard entry host port c ok u
  query_callback-Unheard (a entry ttl address) c ok u = record {
    named = u.named;
    no_address = u.no_address;
    not_added = u.not_added;
  }
  query_callback-Unheard (aaaa entry ttl address) c ok u = record {
    named = u.named;
    no_address = u.no_address;
    not_added = u.not_added;
  }
  query_callback-Unheard (txt entry texts) c ok u = on_txt-Unheard entry texts c u
  query_callback-Unheard other c ok u = u

  queued-Unheard :
      (names : List Text) (c : Client)
      → Unheard name c
      → Unheard name (record c { added_services = names })
  queued-Unheard names c u = record {
    named = u.named;
    no_address = u.no_address;
    not_added = u.not_added;
  }

  announce-Unheard : (n : Text) (c : Client) → Unheard name c → Unheard name (announce n c)
  unfolding announce requeue tell
  announce-Unheard n c u = elim (Option-cases (c.active_services n)) [
    | inl e ↦ rw (e, announce) (queued-Unheard (c.added_services ++ n ∷ []) c u)
    | inr (d, e) ↦
        let same : d.name ≡ n = rw e at (u.named n) in
        let apart : has_address d ≡ true → d.name ≢ name = λ f s.
          let lacking : has_address d ≡ false =
            subst NoAddress e
              (subst (λ j. NoAddress (c.active_services j)) (sym s ∙ same) u.no_address) in
          false≢true (sym lacking ∙ f) in
        rw (e, announce)
          (if_cases (Unheard name) (has_address d)
            (if not (text_eq n (ignored_name c)) then tell (added d) c else c) (requeue n c)
            (λ f.
              if_cases (Unheard name) (not (text_eq n (ignored_name c))) (tell (added d) c) c
                (λ g. record {
                  named = u.named;
                  no_address = u.no_address;
                  not_added = (apart f, u.not_added);
                })
                (λ g. u))
            (λ f. queued-Unheard (c.added_services ++ n ∷ []) c u))
  ]

  pub rounds-Unheard : Rounds (Unheard name)
  unfolding tell
  rounds-Unheard = record {
    announces = λ n names c e u.
        announce-Unheard n (record c { added_services = names }) (queued-Unheard names c u);
    removes = λ n c u. record {
      named = u.named;
      no_address = u.no_address;
      not_added = (tt, u.not_added);
    };
    clears = λ c u. record { named = u.named; no_address = u.no_address; not_added = u.not_added };
  }

-- A service that is not announced yet and has no address stays unannounced, whatever packets come, with
-- address records of its host among them, until one brings a service record of it: the order
-- in which a host sends its address and its service decides whether it is found.
pub receive_packets-Unheard :
    (name : Text) (ps : List (List Record)) (c : Client)
    → All (All (NotSrv name)) ps
    → Unheard name c
    → Unheard name (receive_packets ps c)
receive_packets-Unheard name ps c ok u =
    receive_packets-keeps (Unheard name) (rounds-Unheard name) (NotSrv name)
      (query_callback-Unheard name) ps c ok u
