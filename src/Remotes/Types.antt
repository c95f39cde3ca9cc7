-- ===== src/Remotes/Types.antt =====
-- src/service/remote_info.hpp and src/zeroconf/mdns_types.hpp. A text is its list of bytes. Of the
-- thread of a remote the model keeps whether it has been told to stop; the gRPC stub is whether it
-- is set.
use winpinator.Prelude.{
  ℕ, Bool, true, false, [], ◌∷◌, Text, text_eq, Option, ltb, ◌==◌, ◌&&◌, if◌then◌else◌,
}

pub data RemoteStatus : Type 0 where
  offline registration init_connecting unreachable awaiting_duplex online : RemoteStatus

pub record MdnsIpPair : Type 0 where
  pub valid : Bool
  pub ipv4 : Text
  pub ipv6 : Text

-- `operator==`
unfoldable pub ip_pair_eq : MdnsIpPair → MdnsIpPair → Bool
ip_pair_eq a b =
    (if a.valid then b.valid else if b.valid then false else true)
    && (text_eq a.ipv4 b.ipv4 && text_eq a.ipv6 b.ipv6)

-- `operator<` of `std::string`
unfoldable pub text_lt : Text → Text → Bool
text_lt [] [] = false
text_lt [] (b ∷ ys) = true
text_lt (a ∷ xs) [] = false
text_lt (a ∷ xs) (b ∷ ys) =
    let rest = text_lt xs ys in if ltb a b then true else if a == b then rest else false

-- `operator<`, by which `m_hostSet` is ordered
unfoldable pub ip_pair_lt : MdnsIpPair → MdnsIpPair → Bool
ip_pair_lt a b =
    if (if a.valid then false else b.valid)
    then true
    else if (if b.valid then false else a.valid)
    then false
    else if text_lt a.ipv4 b.ipv4
    then true
    else if text_lt b.ipv4 a.ipv4
    then false
    else if text_lt a.ipv6 b.ipv6
    then true
    else false

pub record MdnsServiceData : Type 0 where
  pub name : Text
  pub srv_name : Text
  pub port : ℕ
  pub ipv4 : Text
  pub ipv6 : Text
  pub txt_records : Text → Option Text

pub record RemoteInfo : Type 0 where
  pub state : RemoteStatus
  pub id : Text
  pub ips : MdnsIpPair
  pub port : ℕ
  pub auth_port : ℕ
  pub api_version : ℕ
  pub os : Text
  pub hostname : Text
  pub full_name : Text
  pub stopping : Bool
  pub busy : Bool
  pub has_zc_presence : Bool
  pub visible : Bool
  pub has_stub : Bool
