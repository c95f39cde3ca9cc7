-- ===== src/Discovery/Exchange.antt =====
-- The packets of src/zeroconf/mdns_service.cpp, as src/zeroconf/mdns_client.cpp of another host takes
-- them, and the room for the records of an answer.
use winpinator.Prelude.{
  ℕ, suc, ◌+◌, ◌≤◌, ◌≡◌, refl, ap, Bool, not, ◌||◌, List, [], ◌∷◌, ◌++◌, Text, text_eq, Option,
  none, some, length, length-append, arith, if_cases, if◌then◌else◌,
}
use winpinator.Discovery.Client.{Record, ptr, a, aaaa}
use winpinator.Discovery.Responder.{
  Service, service_name, service_instance, hostname_qualified, record_ptr, record_srv, record_a,
  record_aaaa, record_txts, details, Query, Answer, reply, reply_a, reply_aaaa, service_callback,
  additional_total, dns_sd, is_known_type, asks_ptr, asks_srv, asks_a, asks_aaaa, ttl_for,
}

abbrev pub Fits : Service → Option Answer → Type 0
Fits s none = Unit
Fits s (some answer) = length answer.additional ≤ additional_total s

length-record_txts :
    (entry : Text) (ts : List (Text × Text)) → length (record_txts entry ts) ≡ length ts
unfolding record_txts
length-record_txts entry [] = refl
length-record_txts entry (t ∷ ts) = ap suc (length-record_txts entry ts)

length-record_a : (ttl : ℕ) (s : Service) (ip : Option Text) → length (record_a ttl s ip) ≤ 1
unfolding record_a
length-record_a ttl s none = omega arith
length-record_a ttl s (some ip) = omega arith

length-record_aaaa : (ttl : ℕ) (s : Service) (ip : Option Text) → length (record_aaaa ttl s ip) ≤ 1
unfolding record_aaaa
length-record_aaaa ttl s none = omega arith
length-record_aaaa ttl s (some ip) = omega arith

length-details : (ttl : ℕ) (s : Service) → length (details ttl s) ≤ 2 + length s.txt_records
unfolding details
length-details ttl s =
    let addresses = record_a ttl s s.address_ipv4 in
    let others = record_aaaa ttl s s.address_ipv6 in
    let texts = record_txts (service_instance s) s.txt_records in
    let same : details ttl s ≡ (addresses ++ others) ++ texts = refl in
    omega (
      arith,
      ap length same,
      length-append (addresses ++ others) texts,
      length-append addresses others,
      length-record_a ttl s s.address_ipv4,
      length-record_aaaa ttl s s.address_ipv6,
      length-record_txts (service_instance s) s.txt_records,
    )

module _ (q : Query) (s : Service) where
  reply-Fits :
      (r : Record) (rs : List Record) → length rs ≤ additional_total s → Fits s (reply q r rs)
  unfolding reply
  reply-Fits r rs h = h

  tested-Fits :
      (b : Bool) (r : Record) (rs : List Record)
      → length rs ≤ additional_total s
      → Fits s (if b then reply q r rs else none)
  tested-Fits b r rs h = if_cases (Fits s) b (reply q r rs) none (λ e. reply-Fits r rs h) (λ e. tt)

  reply_aaaa-Fits : (ip : Option Text) → Fits s (reply_aaaa q s ip)
  unfolding reply_aaaa
  reply_aaaa-Fits none = tt
  reply_aaaa-Fits (some ip) =
      let ttl = ttl_for q.unicast in
      let first = record_a ttl s s.address_ipv4 in
      let texts = record_txts (service_instance s) s.txt_records in
      tested-Fits (asks_aaaa q.asked) (aaaa (hostname_qualified s) ttl ip) (first ++ texts) (
        omega (
          arith,
          length-append first texts,
          length-record_a ttl s s.address_ipv4,
          length-record_txts (service_instance s) s.txt_records,
        ))

  reply_a-Fits : (ip : Option Text) → Fits s (reply_a q s ip)
  unfolding reply_a
  reply_a-Fits none = reply_aaaa-Fits s.address_ipv6
  reply_a-Fits (some ip) =
      let ttl = ttl_for q.unicast in
      let first = record_aaaa ttl s s.address_ipv6 in
      let texts = record_txts (service_instance s) s.txt_records in
      let room : length (first ++ texts) ≤ additional_total s = omega (
        arith,
        length-append first texts,
        length-record_aaaa ttl s s.address_ipv6,
        length-record_txts (service_instance s) s.txt_records,
      ) in
      if_cases (Fits s) (asks_a q.asked)
        (reply q (a (hostname_qualified s) ttl ip) (first ++ texts)) (reply_aaaa q s s.address_ipv6)
        (λ e. reply-Fits (a (hostname_qualified s) ttl ip) (first ++ texts) room)
        (λ e. reply_aaaa-Fits s.address_ipv6)

  -- Whatever is asked, the additional records of the answer fit into the array that is made for them:
  -- three records and one for each text.
  pub service_callback-Fits : Fits s (service_callback q s)
  unfolding service_callback
  service_callback-Fits =
      let ttl = ttl_for q.unicast in
      if_cases (Fits s) (not q.is_question || not (is_known_type q.asked)) none _ (λ e. tt)
        (λ e.
          if_cases (Fits s) (text_eq q.name dns_sd) _ _
            (λ f. tested-Fits (asks_ptr q.asked) (ptr q.name ttl (service_name s)) [] (omega arith))
            (λ f.
              if_cases (Fits s) (text_eq q.name (service_name s)) _ _
                (λ g.
                  tested-Fits (asks_ptr q.asked) (record_ptr ttl s) (record_srv s ∷ details ttl s)
                    (omega (arith, length-details ttl s)))
                (λ g.
                  if_cases (Fits s) (text_eq q.name (service_instance s)) _ _
                    (λ h.
                      tested-Fits (asks_srv q.asked) (record_srv s) (details ttl s)
                        (omega (arith, length-details ttl s)))
                    (λ h.
                      if_cases (Fits s) (text_eq q.name (hostname_qualified s))
                        (reply_a q s s.address_ipv4) none (λ k. reply_a-Fits s.address_ipv4)
                        (λ k. tt)))))
