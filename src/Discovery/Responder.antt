-- ===== src/Discovery/Responder.antt =====
-- The class `MdnsService` (src/zeroconf/mdns_service.cpp): the records of the own service, the packets
-- that announce it and take it back, and the answers to queries. mdns.h writes the packets, with the
-- answer first and the additional records in the order in which they are given, and reads queries. Texts
-- hold no zero byte.
use winpinator.Prelude.{
  ℕ, ◌+◌, Bool, true, false, not, ◌||◌, List, [], ◌∷◌, ◌++◌, Text, codes, text_eq, Option, none,
  some, take, ◌==◌, if◌then◌else◌, length,
}
use winpinator.Discovery.Client.{Record, ptr, srv, a, aaaa, txt}

-- What `MdnsService` has been told, with the own addresses that were found.
pub record Service : Type 0 where
  pub srv_type : Text
  pub hostname : Text
  pub port : ℕ
  pub txt_records : List (Text × Text)
  pub address_ipv4 : Option Text
  pub address_ipv6 : Option Text

-- `serviceName`, which ends in a dot.
unfoldable pub with_dot : Text → Text
with_dot [] = []
with_dot (c ∷ []) = if c == b'.' then c ∷ [] else c ∷ b'.' ∷ []
with_dot (c ∷ d ∷ cs) = c ∷ with_dot (d ∷ cs)

-- What `snprintf` leaves of a text in a buffer whose size is given as 255.
unfoldable pub printed : Text → Text
printed t = take 254 t

unfoldable pub service_name : Service → Text
unfolding with_dot
service_name s = with_dot s.srv_type

unfoldable pub service_instance : Service → Text
unfolding service_name printed
service_instance s = printed (s.hostname ++ codes "." ++ service_name s)

unfoldable pub hostname_qualified : Service → Text
unfolding printed
hostname_qualified s = printed (s.hostname ++ codes ".local.")

unfoldable pub record_ptr : ℕ → Service → Record
unfolding service_name service_instance
record_ptr ttl s = ptr (service_name s) ttl (service_instance s)

unfoldable pub record_srv : Service → Record
unfolding service_instance hostname_qualified
record_srv s = srv (service_instance s) (hostname_qualified s) s.port

unfoldable pub record_a : ℕ → Service → Option Text → List Record
unfolding hostname_qualified
record_a ttl s none = []
record_a ttl s (some address) = a (hostname_qualified s) ttl address ∷ []

unfoldable pub record_aaaa : ℕ → Service → Option Text → List Record
unfolding hostname_qualified
record_aaaa ttl s none = []
record_aaaa ttl s (some address) = aaaa (hostname_qualified s) ttl address ∷ []

-- Each text in a record of its own.
unfoldable pub record_txts : Text → List (Text × Text) → List Record
record_txts entry [] = []
record_txts entry (t ∷ ts) = txt entry (t ∷ []) ∷ record_txts entry ts

-- The additional records that follow the service record.
unfoldable pub details : ℕ → Service → List Record
unfolding record_a record_aaaa record_txts service_instance
details ttl s =
    record_a ttl s s.address_ipv4
    ++ record_aaaa ttl s s.address_ipv6
    ++ record_txts (service_instance s) s.txt_records

-- The packet of `serviceMdns` at its start, and with 0 that of `unregisterService`.
unfoldable pub announcement : ℕ → Service → List Record
unfolding record_ptr record_srv details
announcement ttl s = record_ptr ttl s ∷ record_srv s ∷ details ttl s

abbrev pub start_ttl : ℕ
start_ttl = 3600

-- A record type that `serviceCallback` tells apart.
pub data Asked : Type 0 where
  asked_ptr asked_srv asked_a asked_aaaa asked_any asked_other : Asked

pub record Query : Type 0 where
  pub is_question : Bool
  pub asked : Asked
  pub name : Text
  pub unicast : Bool

pub record Answer : Type 0 where
  pub to_asker : Bool
  pub ttl : ℕ
  pub answer : Record
  pub additional : List Record

abbrev pub dns_sd : Text
dns_sd = codes "_services._dns-sd._udp.local."

unfoldable pub asks_ptr : Asked → Bool
asks_ptr asked_ptr = true
asks_ptr asked_any = true
asks_ptr _ = false

unfoldable pub asks_srv : Asked → Bool
asks_srv asked_srv = true
asks_srv asked_any = true
asks_srv _ = false

unfoldable pub asks_a : Asked → Bool
asks_a asked_a = true
asks_a asked_any = true
asks_a _ = false

unfoldable pub asks_aaaa : Asked → Bool
asks_aaaa asked_aaaa = true
asks_aaaa asked_any = true
asks_aaaa _ = false

abbrev pub is_known_type : Asked → Bool
is_known_type asked_other = false
is_known_type _ = true

-- `mcttl` and `ucttl`
unfoldable pub ttl_for : Bool → ℕ
ttl_for unicast = if unicast then 600 else 3600

unfoldable pub reply : Query → Record → List Record → Option Answer
unfolding ttl_for
reply q record_sent additional = some record {
  to_asker = q.unicast;
  ttl = ttl_for q.unicast;
  answer = record_sent;
  additional = additional;
}

-- A query for the own host, by its IPv6 address, if there is one.
unfoldable pub reply_aaaa : Query → Service → Option Text → Option Answer
unfolding reply asks_aaaa record_a record_txts service_instance hostname_qualified
reply_aaaa q s none = none
reply_aaaa q s (some ip) =
    let ttl = ttl_for q.unicast in
    if asks_aaaa q.asked
    then reply q (aaaa (hostname_qualified s) ttl ip)
        (record_a ttl s s.address_ipv4 ++ record_txts (service_instance s) s.txt_records)
    else none

-- By its IPv4 address first.
unfoldable pub reply_a : Query → Service → Option Text → Option Answer
unfolding reply_aaaa asks_a record_aaaa
reply_a q s none = reply_aaaa q s s.address_ipv6
reply_a q s (some ip) =
    let ttl = ttl_for q.unicast in
    if asks_a q.asked
    then reply q (a (hostname_qualified s) ttl ip)
        (record_aaaa ttl s s.address_ipv6 ++ record_txts (service_instance s) s.txt_records)
    else reply_aaaa q s s.address_ipv6

-- `serviceCallback`
unfoldable pub service_callback : Query → Service → Option Answer
unfolding reply_a asks_ptr asks_srv record_ptr record_srv details
service_callback q s =
    let ttl = ttl_for q.unicast in
    if not q.is_question || not (is_known_type q.asked)
    then none
    else if text_eq q.name dns_sd
    then if asks_ptr q.asked then reply q (ptr q.name ttl (service_name s)) [] else none
    else if text_eq q.name (service_name s)
    then if asks_ptr q.asked
      then reply q (record_ptr ttl s) (record_srv s ∷ details ttl s)
      else none
    else if text_eq q.name (service_instance s)
    then if asks_srv q.asked then reply q (record_srv s) (details ttl s) else none
    else if text_eq q.name (hostname_qualified s)
    then reply_a q s s.address_ipv4
    else none

-- `additionalTotal`, the length of the array that takes the additional records.
abbrev pub additional_total : Service → ℕ
additional_total s = 3 + length s.txt_records
