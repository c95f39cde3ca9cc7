-- ===== src/Discovery/Client.antt =====
-- The class `MdnsClient` (src/zeroconf/mdns_client.cpp): what it makes of the records that other hosts
-- send, and the listeners that it calls after each packet. The vendored mdns.h parses the packets, so a
-- record comes here parsed, with its entry name first. The sockets are in Sockets.
use winpinator.Prelude.{
  ℕ, zero, suc, Bool, true, false, not, ◌||◌, List, [], ◌∷◌, ◌++◌, Text, codes, text_eq, Option,
  none, some, ltb, length, if◌then◌else◌,
}
use winpinator.Remotes.Types.{MdnsServiceData}

pub data Record : Type 0 where
  -- entry, time to live and name
  ptr : Text → ℕ → Text → Record
  -- entry, host and port
  srv : Text → Text → ℕ → Record
  -- entry, time to live and address
  a aaaa : Text → ℕ → Text → Record
  -- entry, with keys and values
  txt : Text → List (Text × Text) → Record
  other : Record

-- The calls of the two listeners.
pub data Heard : Type 0 where
  added : MdnsServiceData → Heard
  removed : Text → Heard

pub record Client : Type 0 where
  pub srv_type : Text
  pub ignored_host : Text
  pub active_services : Text → Option MdnsServiceData
  -- the front first
  pub added_services : List Text
  pub removed_services : List Text
  pub a_records : Text → Option Text
  pub aaaa_records : Text → Option Text
  -- newest first
  pub heard : List Heard

unfoldable pub put {ℓ} : {A : Type ℓ} → Text → Option A → (Text → Option A) → Text → Option A
put k v m j = if text_eq j k then v else m j

-- `MdnsServiceData()` with its name
unfoldable pub new_service : Text → MdnsServiceData
new_service name = record {
  name = name;
  srv_name = [];
  port = 0;
  ipv4 = [];
  ipv6 = [];
  txt_records = λ k. none;
}

-- `m_removedServices.back() != name` or empty
unfoldable pub last_differs : Text → List Text → Bool
last_differs name [] = true
last_differs name (n ∷ []) = not (text_eq n name)
last_differs name (n ∷ m ∷ ns) = last_differs name (m ∷ ns)

unfoldable pub ptr_added : Text → Client → Client
unfolding put new_service
ptr_added name c = elim (c.active_services name) [
  | some d ↦ c
  | none ↦ record c {
    active_services = put name (some (new_service name)) c.active_services;
    added_services = c.added_services ++ name ∷ [];
  }
]

unfoldable pub ptr_removed : Text → Client → Client
unfolding put last_differs
ptr_removed name c = record c {
  active_services = put name none c.active_services;
  removed_services =
      if last_differs name c.removed_services
      then c.removed_services ++ name ∷ []
      else c.removed_services;
}

unfoldable pub on_ptr : Text → ℕ → Text → Client → Client
unfolding ptr_added ptr_removed
on_ptr entry ttl name c =
    if text_eq entry c.srv_type
    then if ltb 0 ttl then ptr_added name c else ptr_removed name c
    else c

abbrev pub or_kept : Text → Option Text → Text
or_kept kept none = kept
or_kept kept (some address) = address

-- The host and port of a service, with the addresses that are known for the host.
unfoldable pub resolved : Text → ℕ → Client → MdnsServiceData → MdnsServiceData
resolved srv_name port c d = record d {
  srv_name = srv_name;
  port = port;
  ipv4 = or_kept d.ipv4 (c.a_records srv_name);
  ipv6 = or_kept d.ipv6 (c.aaaa_records srv_name);
}

unfoldable pub on_srv : Text → Text → ℕ → Client → Client
unfolding put resolved
on_srv entry srv_name port c = elim (c.active_services entry) [
  | none ↦ c
  | some d ↦ record c {
    active_services = put entry (some (resolved srv_name port c d)) c.active_services;
  }
]

-- The address table after a record with a time to live, or after one that takes it back.
unfoldable pub store_address : Text → ℕ → Text → (Text → Option Text) → Text → Option Text
unfolding put
store_address entry ttl address m =
    if ltb 0 ttl then put entry (some address) m else elim (m entry) [
      | none ↦ m
      | some old ↦ if text_eq old address then put entry none m else m
    ]

unfoldable pub store_texts : List (Text × Text) → (Text → Option Text) → Text → Option Text
unfolding put
store_texts [] m = m
store_texts ((k, v) ∷ rest) m = store_texts rest (put k (some v) m)

unfoldable pub on_txt : Text → List (Text × Text) → Client → Client
unfolding put store_texts
on_txt entry texts c = elim (c.active_services entry) [
  | none ↦ c
  | some d ↦ record c {
    active_services =
        put entry (some (record d { txt_records = store_texts texts d.txt_records }))
          c.active_services;
  }
]

unfoldable pub query_callback : Record → Client → Client
unfolding on_ptr on_srv store_address on_txt
query_callback (ptr entry ttl name) c = on_ptr entry ttl name c
query_callback (srv entry srv_name port) c = on_srv entry srv_name port c
query_callback (a entry ttl address) c = record c {
  a_records = store_address entry ttl address c.a_records;
}
query_callback (aaaa entry ttl address) c = record c {
  aaaa_records = store_address entry ttl address c.aaaa_records;
}
query_callback (txt entry texts) c = on_txt entry texts c
query_callback other c = c

abbrev pub is_empty : Text → Bool
is_empty [] = true
is_empty (x ∷ xs) = false

-- `isValidService`
abbrev pub has_address : MdnsServiceData → Bool
has_address d = not (is_empty d.ipv4) || not (is_empty d.ipv6)

-- The full name of the own service.
unfoldable pub ignored_name : Client → Text
ignored_name c = c.ignored_host ++ codes "." ++ c.srv_type

unfoldable pub tell : Heard → Client → Client
tell h c = record c { heard = h ∷ c.heard }

unfoldable pub requeue : Text → Client → Client
requeue name c = record c { added_services = c.added_services ++ name ∷ [] }

-- One queued name that has been taken off.
unfoldable pub announce : Text → Client → Client
unfolding ignored_name tell requeue
announce name c = elim (c.active_services name) [
  | none ↦ requeue name c
  | some d ↦
      if has_address d
      then if not (text_eq name (ignored_name c)) then tell (added d) c else c
      else requeue name c
]

-- The first loop of `processEvents`, with `counter`; the queue holds at least as many names.
unfoldable pub process_added : ℕ → Client → Client
unfolding announce
process_added zero c = c
process_added (suc n) c = elim c.added_services [
  | [] ↦ c
  | name ∷ names ↦ process_added n (announce name (record c { added_services = names }))
]

-- The second loop, over the names of the queue, which is empty then.
unfoldable pub tell_removed : List Text → Client → Client
unfolding ignored_name tell
tell_removed [] c = record c { removed_services = [] }
tell_removed (name ∷ names) c =
    tell_removed names (if not (text_eq name (ignored_name c)) then tell (removed name) c else c)

unfoldable pub process_events : Client → Client
unfolding process_added tell_removed
process_events c =
    let d = process_added (length c.added_services) c in tell_removed d.removed_services d

-- The records of one packet, and the events after it.
unfoldable pub take_records : List Record → Client → Client
unfolding query_callback
take_records [] c = c
take_records (r ∷ rs) c = take_records rs (query_callback r c)

unfoldable pub receive_packet : List Record → Client → Client
unfolding take_records process_events
receive_packet rs c = process_events (take_records rs c)

unfoldable pub receive_packets : List (List Record) → Client → Client
unfolding receive_packet
receive_packets [] c = c
receive_packets (p ∷ ps) c = receive_packets ps (receive_packet p c)
