-- ===== src/Discovery/Sockets.antt =====
-- The sockets that src/zeroconf/mdns_client.cpp and src/zeroconf/mdns_service.cpp open, one for each
-- address of this host. Windows answers with its adapters, and mdns.h opens a socket; both are
-- parameters, and a socket is a number.
use winpinator.Prelude.{
  ℕ, zero, suc, Bool, true, false, not, ◌||◌, ◌&&◌, List, [], ◌∷◌, ◌++◌, Text, text_eq, Option,
  none, some, length, ltb, ◌==◌, if◌then◌else◌,
}

pub data Address : Type 0 where
  -- the four bytes
  v4 : ℕ → ℕ → ℕ → ℕ → Address
  -- the sixteen bytes, as a list
  v6 : List ℕ → Address
  other_family : Address

pub record Unicast : Type 0 where
  pub address : Address
  -- `DadState == NldsPreferred`
  pub preferred : Bool

pub record Adapter : Type 0 where
  pub name : Text
  pub is_teredo : Bool
  pub is_up : Bool
  pub unicasts : List Unicast

-- What `GetAdaptersAddresses` answers.
pub data Reply : Type 0 where
  overflow failed : Reply
  adapters : List Adapter → Reply

-- The members that the loop sets, with its own `firstIpv4` and `firstIpv6`, and the sockets.
pub record Opened : Type 0 where
  pub first_ipv4 : Bool
  pub first_ipv6 : Bool
  pub service_address_ipv4 : Option Address
  pub service_address_ipv6 : Option Address
  pub has_ipv4 : Bool
  pub has_ipv6 : Bool
  pub sockets : List ℕ

abbrev pub mdns_port : ℕ
mdns_port = 5353

-- The size of the array that takes the sockets.
abbrev pub max_sockets : ℕ
max_sockets = 32

-- `127.0.0.1`
unfoldable pub is_localhost : ℕ → ℕ → ℕ → ℕ → Bool
is_localhost b1 b2 b3 b4 = b1 == 127 && b2 == 0 && b3 == 0 && b4 == 1

abbrev pub localhost : List ℕ
localhost = 0 ∷ 0 ∷ 0 ∷ 0 ∷ 0 ∷ 0 ∷ 0 ∷ 0 ∷ 0 ∷ 0 ∷ 0 ∷ 0 ∷ 0 ∷ 0 ∷ 0 ∷ 1 ∷ []

abbrev pub localhost_mapped : List ℕ
localhost_mapped = 0 ∷ 0 ∷ 0 ∷ 0 ∷ 0 ∷ 0 ∷ 0 ∷ 0 ∷ 0 ∷ 0 ∷ 255 ∷ 255 ∷ 127 ∷ 0 ∷ 0 ∷ 1 ∷ []

-- The answers to the call, by attempt; `num_retries` is 4 at the start.
unfoldable pub find_adapters : ℕ → ℕ → (ℕ → Reply) → Option (List Adapter)
find_adapters zero attempt answers = elim (answers attempt) [
  | overflow ↦ none
  | failed ↦ none
  | adapters found ↦ some found
]
find_adapters (suc n) attempt answers = elim (answers attempt) [
  | overflow ↦ find_adapters n (suc attempt) answers
  | failed ↦ none
  | adapters found ↦ some found
]

unfoldable pub keep_socket : Option ℕ → Opened → Opened
keep_socket none s = s
keep_socket (some sock) s = record s { sockets = s.sockets ++ sock ∷ [] }

-- `mdns_socket_open_ipv4` and `mdns_socket_open_ipv6` on a port and an address
module _ (bind : ℕ → Address → Option ℕ) (port max : ℕ) where
  unfoldable pub open_next : Address → Opened → Opened
  unfolding keep_socket
  open_next address s = if ltb (length s.sockets) max then keep_socket (bind port address) s else s

  unfoldable pub take_ipv4 : Address → Opened → Opened
  unfolding open_next
  take_ipv4 address s = open_next address (record s {
    service_address_ipv4 = if s.first_ipv4 then some address else s.service_address_ipv4;
    first_ipv4 = false;
    has_ipv4 = true;
  })

  unfoldable pub take_ipv6 : Address → Opened → Opened
  unfolding open_next
  take_ipv6 address s = open_next address (record s {
    service_address_ipv6 = if s.first_ipv6 then some address else s.service_address_ipv6;
    first_ipv6 = false;
    has_ipv6 = true;
  })

  unfoldable pub take_unicast : Address → Bool → Opened → Opened
  unfolding take_ipv4 take_ipv6 is_localhost text_eq
  take_unicast (v4 b1 b2 b3 b4) preferred s =
      if is_localhost b1 b2 b3 b4 then s else take_ipv4 (v4 b1 b2 b3 b4) s
  take_unicast (v6 bytes) preferred s =
      if preferred && not (text_eq bytes localhost) && not (text_eq bytes localhost_mapped)
      then take_ipv6 (v6 bytes) s
      else s
  take_unicast other_family preferred s = s

  unfoldable pub take_unicasts : List Unicast → Opened → Opened
  unfolding take_unicast
  take_unicasts [] s = s
  take_unicasts (u ∷ us) s = take_unicasts us (take_unicast u.address u.preferred s)

  -- The loop over the adapters, with the test that passes one over.
  unfoldable pub take_adapters : (Adapter → Bool) → List Adapter → Opened → Opened
  unfolding take_unicasts
  take_adapters skipped [] s = s
  take_adapters skipped (a ∷ others) s =
      take_adapters skipped others (if skipped a then s else take_unicasts a.unicasts s)

  unfoldable pub open_sockets : (Adapter → Bool) → (ℕ → Reply) → Opened → Opened
  unfolding find_adapters take_adapters
  open_sockets skipped answers s = elim (find_adapters 4 0 answers) [
    | none ↦ record s { sockets = [] }
    | some found ↦
        take_adapters skipped found
          (record s { first_ipv4 = true; first_ipv6 = true; sockets = [] })
  ]

-- The tests in the loop of `MdnsClient::openClientSockets`.
unfoldable pub client_skips : Adapter → Bool
client_skips a = a.is_teredo || not a.is_up

-- The tests in that of `MdnsService::openClientSockets`, which may be bound to one adapter.
unfoldable pub service_skips : Text → Adapter → Bool
unfolding client_skips
service_skips interf a = client_skips a || (ltb 0 (length interf) && not (text_eq interf a.name))

abbrev pub none_found : Bool → Bool → Bool
none_found has_ipv4 has_ipv6 = not has_ipv4 && not has_ipv6

-- `openServiceSockets`: the addresses are looked for without opening a socket, on every adapter where
-- the named one has none, and two sockets are bound. `by_name` is `InterfaceUtils`.
unfoldable pub open_service_sockets :
    (ℕ → Address → Option ℕ)
    → (Text → Address × Address)
    → ℕ
    → Text
    → (ℕ → Reply)
    → (ℕ → Reply)
    → Opened
    → Opened
unfolding open_sockets open_next service_skips
open_service_sockets bind by_name max interf answers again s =
    let named = open_sockets bind 0 0 (service_skips interf) answers s in
    let every = open_sockets bind 0 0 (service_skips []) again named in
    let found = if none_found named.has_ipv4 named.has_ipv6 then every else named in
    open_next bind mdns_port max (by_name interf).1
      (open_next bind mdns_port max (by_name interf).0 (record found { sockets = [] }))
