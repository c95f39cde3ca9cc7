-- ===== src/Discovery/Repeats.antt =====
-- What src/zeroconf/mdns_client.cpp has announced it does not announce again.
use winpinator.Prelude.{
  ℕ, ◌≡◌, ◌≢◌, refl, sym, ◌∙◌, ◌⊎◌, inl, inr, true, false, not, List, [], ◌∷◌, ◌++◌, Text, text_eq,
  text_eq_ne, Option, none, some, All, All-append, ltb, Option-cases, if_cases, if◌then◌else◌,
  subst,
}
use mathlib.Core.Bool.{false≢true}
use winpinator.Remotes.Types.{MdnsServiceData}
use winpinator.Discovery.Client.{
  Record, ptr, srv, a, aaaa, txt, other, Heard, added, removed, Client, put, new_service, ptr_added,
  ptr_removed, on_ptr, resolved, on_srv, on_txt, store_texts, query_callback, has_address,
  ignored_name, tell, requeue, announce, receive_packets,
}
use winpinator.Discovery.Keeping.{put_cases, Rounds, receive_packets-keeps}
use winpinator.Discovery.Unresolved.{NamedAs}

-- The announcements of a name, newest first.
abbrev pub announcements : Text → List Heard → List MdnsServiceData
announcements name [] = []
announcements name (added d ∷ hs) =
    if text_eq d.name name then d ∷ announcements name hs else announcements name hs
announcements name (removed n ∷ hs) = announcements name hs

abbrev pub IsKnown : Option MdnsServiceData → Type 0
IsKnown none = ⊥
IsKnown (some d) = Unit

-- A record does not take the name back.
abbrev pub NotTaken : Text → Record → Type 0
NotTaken name (ptr entry ttl n) = (n ≢ name) ⊎ (ltb 0 ttl ≡ true)
NotTaken name _ = Unit

pub record Settled (name : Text) (told : List MdnsServiceData) (c : Client) : Type 0 where
  pub named : (k : Text) → NamedAs k (c.active_services k)
  pub known : IsKnown (c.active_services name)
  pub unqueued : All (λ q. q ≢ name) c.added_services
  pub all_told : announcements name c.heard ≡ told

module _ (name : Text) (told : List MdnsServiceData) where
  abbrev Keeps : Client → Type 0
  Keeps = Settled name told

  -- Another table of services and another queue, with the same calls.
  settled :
      (active : Text → Option MdnsServiceData) (queue : List Text) (c : Client)
      → Keeps c
      → ((k : Text) → NamedAs k (active k))
      → IsKnown (active name)
      → All (λ q. q ≢ name) queue
      → Keeps (record c { active_services = active; added_services = queue })
  settled active queue c s n k u = record {
    named = n;
    known = k;
    unqueued = u;
    all_told = s.all_told;
  }

  ptr_added-Settled : (n : Text) (c : Client) → Keeps c → Keeps (ptr_added n c)
  unfolding ptr_added new_service
  ptr_added-Settled n c s = elim (Option-cases (c.active_services n)) [
    | inr (d, e) ↦ rw (e, ptr_added) s
    | inl e ↦
        let apart : n ≢ name = λ same. rw (sym same, e) at s.known in
        rw (e, ptr_added)
          (settled (put n (some (new_service n)) c.active_services) (c.added_services ++ n ∷ []) c s
            (λ k.
              put_cases (NamedAs k) n k (some (new_service n)) c.active_services sym
                (λ ne. s.named k))
            (put_cases IsKnown n name (some (new_service n)) c.active_services (λ same. tt)
              (λ ne. s.known))
            (All-append (λ q. q ≢ name) c.added_services (n ∷ []) s.unqueued (apart, tt)))
  ]

  ptr_removed-Settled : (n : Text) (c : Client) → n ≢ name → Keeps c → Keeps (ptr_removed n c)
  unfolding ptr_removed
  ptr_removed-Settled n c ne s = record {
    named = λ k. put_cases (NamedAs k) n k none c.active_services (λ same. tt) (λ o. s.named k);
    known =
        put_cases IsKnown n name none c.active_services (λ same. absurd (ne (sym same)))
          (λ o. s.known);
    unqueued = s.unqueued;
    all_told = s.all_told;
  }

  on_ptr-Settled :
      (entry : Text) (ttl : ℕ) (n : Text) (c : Client)
      → (n ≢ name) ⊎ (ltb 0 ttl ≡ true)
      → Keeps c
      → Keeps (on_ptr entry ttl n c)
  unfolding on_ptr
  on_ptr-Settled entry ttl n c ok s =
      if_cases Keeps (text_eq entry c.srv_type)
        (if ltb 0 ttl then ptr_added n c else ptr_removed n c) c
        (λ e.
          if_cases Keeps (ltb 0 ttl) (ptr_added n c) (ptr_removed n c)
            (λ f. ptr_added-Settled n c s)
            (λ f. elim ok [
              | inl ne ↦ ptr_removed-Settled n c ne s
              | inr live ↦ absurd (false≢true (sym f ∙ live))
            ]))
        (λ e. s)

  -- A known service with other data under its name.
  changed-Settled :
      (entry : Text) (d d' : MdnsServiceData) (c : Client)
      → c.active_services entry ≡ some d
      → d'.name ≡ d.name
      → Keeps c
      → Keeps (record c { active_services = put entry (some d') c.active_services })
  changed-Settled entry d d' c e same s =
      let old : d.name ≡ entry = rw e at (s.named entry) in
      settled (put entry (some d') c.active_services) c.added_services c s
        (λ k.
          put_cases (NamedAs k) entry k (some d') c.active_services (λ o. same ∙ old ∙ sym o)
            (λ o. s.named k))
        (put_cases IsKnown entry name (some d') c.active_services (λ o. tt) (λ o. s.known))
        s.unqueued

  query_callback-Settled :
      (r : Record) (c : Client) → NotTaken name r → Keeps c → Keeps (query_callback r c)
  unfolding query_callback on_srv on_txt resolved
  query_callback-Settled (ptr entry ttl n) c ok s = on_ptr-Settled entry ttl n c ok s
  query_callback-Settled (srv entry host port) c ok s =
      elim (Option-cases (c.active_services entry)) [
        | inl e ↦ rw (e, on_srv) s
        | inr (d, e) ↦ rw (e, on_srv) (changed-Settled entry d (resolved host port c d) c e refl s)
      ]
  query_callback-Settled (a entry ttl address) c ok s = record {
    named = s.named;
    known = s.known;
    unqueued = s.unqueued;
    all_told = s.all_told;
  }
  query_callback-Settled (aaaa entry ttl address) c ok s = record {
    named = s.named;
    known = s.known;
    unqueued = s.unqueued;
    all_told = s.all_told;
  }
  query_callback-Settled (txt entry texts) c ok s = elim (Option-cases (c.active_services entry)) [
    | inl e ↦ rw (e, on_txt) s
    | inr (d, e) ↦
        rw (e, on_txt)
          (changed-Settled entry d (record d { txt_records = store_texts texts d.txt_records }) c e
            refl s)
  ]
  query_callback-Settled other c ok s = s

  requeued-Settled :
      (n : Text) (names : List Text) (c : Client)
      → n ≢ name
      → All (λ q. q ≢ name) names
      → Keeps c
      → Keeps (record c { added_services = names ++ n ∷ [] })
  requeued-Settled n names c ne rest s =
      settled c.active_services (names ++ n ∷ []) c s s.named s.known
        (All-append (λ q. q ≢ name) names (n ∷ []) rest (ne, tt))

  told-Settled :
      (n : Text) (names : List Text) (d : MdnsServiceData) (c : Client)
      → n ≢ name
      → d.name ≡ n
      → All (λ q. q ≢ name) names
      → Keeps c
      → Keeps (record c { added_services = names; heard = added d ∷ c.heard })
  told-Settled n names d c ne same rest s =
      let apart : text_eq d.name name ≡ false = text_eq_ne d.name name (λ e. ne (sym same ∙ e)) in
      record { named = s.named; known = s.known; unqueued = rest; all_told = rw apart s.all_told }

  announce-Settled :
      (n : Text) (names : List Text) (c : Client)
      → c.added_services ≡ n ∷ names
      → Keeps c
      → Keeps (announce n (record c { added_services = names }))
  unfolding announce requeue tell ignored_name
  announce-Settled n names c queue s =
      let (ne, rest) : All (λ q. q ≢ name) (n ∷ names) =
        subst (All (λ q. q ≢ name)) queue s.unqueued in
      let quiet : Keeps (record c { added_services = names }) =
        settled c.active_services names c s s.named s.known rest in
      elim (Option-cases (c.active_services n)) [
        | inl e ↦ rw (e, announce) (requeued-Settled n names c ne rest s)
        | inr (d, e) ↦
            rw (e, announce)
              (if_cases Keeps (has_address d) _ _
                (λ f.
                  if_cases Keeps (not (text_eq n (ignored_name c))) _ _
                    (λ g. told-Settled n names d c ne (rw e at (s.named n)) rest s) (λ g. quiet))
                (λ f. requeued-Settled n names c ne rest s))
      ]

  rounds-Settled : Rounds Keeps
  unfolding tell
  rounds-Settled = record {
    announces = announce-Settled;
    removes = λ n c s. record {
      named = s.named;
      known = s.known;
      unqueued = s.unqueued;
      all_told = s.all_told;
    };
    clears = λ c s. record {
      named = s.named;
      known = s.known;
      unqueued = s.unqueued;
      all_told = s.all_told;
    };
  }

-- A service that is known and no longer queued is not announced again, whatever packets come, as long
-- as none takes its name back: what is learnt of it afterwards, such as texts that come in a
-- later packet, reaches no listener.
pub receive_packets-Settled :
    (name : Text) (ps : List (List Record)) (c : Client)
    → All (All (NotTaken name)) ps
    → Settled name (announcements name c.heard) c
    → announcements name (receive_packets ps c).heard ≡ announcements name c.heard
receive_packets-Settled name ps c ok s =
    let told = announcements name c.heard in
    let kept : Settled name told (receive_packets ps c) =
      receive_packets-keeps (Settled name told) (rounds-Settled name told) (NotTaken name)
        (query_callback-Settled name told) ps c ok s in
    kept.all_told
