-- ===== src/Discovery/Details.antt =====
-- The records that follow the service record in the packets of src/zeroconf/mdns_service.cpp.
use winpinator.Prelude.{
  ℕ, ◌≡◌, refl, List, [], ◌∷◌, ◌++◌, Text, Option, none, some, All, All-append,
}
use winpinator.Discovery.Client.{Record, a, aaaa, txt}
use winpinator.Discovery.Responder.{
  Service, service_instance, record_a, record_aaaa, record_txts, details,
}

-- An address, or texts of the service.
abbrev pub IsDetail : Text → Record → Type 0
IsDetail name (a entry ttl address) = Unit
IsDetail name (aaaa entry ttl address) = Unit
IsDetail name (txt entry texts) = entry ≡ name
IsDetail name _ = ⊥

record_a-IsDetail :
    (ttl : ℕ) (s : Service) (name : Text) (ip : Option Text)
    → All (IsDetail name) (record_a ttl s ip)
unfolding record_a
record_a-IsDetail ttl s name none = tt
record_a-IsDetail ttl s name (some ip) = (tt, tt)

record_aaaa-IsDetail :
    (ttl : ℕ) (s : Service) (name : Text) (ip : Option Text)
    → All (IsDetail name) (record_aaaa ttl s ip)
unfolding record_aaaa
record_aaaa-IsDetail ttl s name none = tt
record_aaaa-IsDetail ttl s name (some ip) = (tt, tt)

record_txts-IsDetail :
    (name : Text) (ts : List (Text × Text)) → All (IsDetail name) (record_txts name ts)
unfolding record_txts
record_txts-IsDetail name [] = tt
record_txts-IsDetail name (t ∷ ts) = (refl, record_txts-IsDetail name ts)

pub details-IsDetail : (ttl : ℕ) (s : Service) → All (IsDetail (service_instance s)) (details ttl s)
unfolding details
details-IsDetail ttl s =
    let name = service_instance s in
    let first = record_a ttl s s.address_ipv4 in
    let second = record_aaaa ttl s s.address_ipv6 in
    All-append (IsDetail name) (first ++ second) (record_txts name s.txt_records)
      (All-append (IsDetail name) first second (record_a-IsDetail ttl s name s.address_ipv4)
        (record_aaaa-IsDetail ttl s name s.address_ipv6))
      (record_txts-IsDetail name s.txt_records)
