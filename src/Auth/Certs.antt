-- ===== src/Auth/Certs.antt =====
-- Certificates in `AuthManager` (src/service/auth_manager.cpp): they are sent boxed with the group code
-- and kept by host. libsodium, the base64 library and the conversion to UTF-8 are parameters. Lengths are
-- natural numbers; the code keeps those of the own certificate in an `int`, so it is below 2 ^ 31 bytes.
use winpinator.Prelude.{
  ℕ, ◌+◌, ◌-◌, ◌%◌, ◌^◌, ◌≡◌, Bool, true, false, not, ◌||◌, ◌&&◌, [], ◌∷◌, ◌++◌, Text, codes,
  text_eq, Option, none, some, length, take, drop, ltb, leb, ◌==◌, if◌then◌else◌, All,
}
use winpinator.Remotes.Types.{MdnsIpPair}
use winpinator.Auth.State.{Auth}

abbrev pub nonce_bytes : ℕ
nonce_bytes = 24

abbrev pub mac_bytes : ℕ
mac_bytes = 16

-- `std::isspace` in the C locale
unfoldable pub is_space : ℕ → Bool
is_space c = (c == 32) || (leb 9 c && leb c 13)

unfoldable pub remove_spaces : Text → Text
unfolding is_space
remove_spaces [] = []
remove_spaces (c ∷ cs) = if is_space c then remove_spaces cs else c ∷ remove_spaces cs

pub record Crypto : Type 0 where
  pub utf8 : Text → Text
  pub base64_encode : Text → Text
  -- `none` is an exception
  pub base64_decode : Text → Option Text
  pub sha256 : Text → Text
  -- message, nonce and key
  pub secretbox : Text → Text → Text → Text
  pub secretbox_open : Text → Text → Text → Option Text

-- What is encoded decodes to itself, is empty for the empty text only and holds no spaces; a box opens with the nonce and the key of its
-- making, and is longer than its message by the code of authentication.
pub record IsLawful (k : Crypto) : Type 0 where
  pub decode-encode : (t : Text) → k.base64_decode (k.base64_encode t) ≡ some t
  pub encode_empty : (t : Text) → k.base64_encode t ≡ [] → t ≡ []
  pub encode_spaces : (t : Text) → All (λ c. is_space c ≡ false) (k.base64_encode t)
  pub open-secretbox :
      (m nonce key : Text) → k.secretbox_open (k.secretbox m nonce key) nonce key ≡ some m
  pub length-secretbox :
      (m nonce key : Text) → length (k.secretbox m nonce key) ≡ length m + mac_bytes

unfoldable pub ip_pair_to_string : MdnsIpPair → Text
ip_pair_to_string pair =
    if pair.valid then pair.ipv4 ++ codes "\\" ++ pair.ipv6 else codes "invalid_pair"

unfoldable pub cert_key : Text → MdnsIpPair → Text
unfolding ip_pair_to_string
cert_key hostname ips = hostname ++ codes "." ++ ip_pair_to_string ips

unfoldable pub get_cached_cert : Text → MdnsIpPair → Auth → Text
unfolding cert_key
get_cached_cert hostname ips a = elim (a.remote_certs (cert_key hostname ips)) [
  | none ↦ []
  | some cert ↦ cert
]

unfoldable pub keep_cert : Text → Text → Auth → Auth
unfolding text_eq
keep_cert key cert a = record a {
  remote_certs = λ k. if text_eq k key then some cert else a.remote_certs k;
}

module _ (k : Crypto) where
  unfoldable pub get_encoded_local_cert : Text → Auth → Text
  get_encoded_local_cert nonce a =
      k.base64_encode (nonce ++ k.secretbox a.server_pub_key nonce (k.sha256 (k.utf8 a.code)))

  -- `msgSize`, a `size_t`
  unfoldable pub message_size : Text → ℕ
  message_size decoded = (length decoded + 2 ^ 64 - nonce_bytes - mac_bytes) % 2 ^ 64

  -- An array of more than PTRDIFF_MAX bytes is an exception of `new`; smaller ones are taken to fit.
  abbrev pub fits : ℕ → Bool
  fits n = ltb n (2 ^ 63)

  -- `processRemoteCert` after the decoding. The result is `none` where an exception leaves it.
  unfoldable pub open_cert : Text → MdnsIpPair → Text → Auth → Option (Bool × Auth)
  open_cert hostname ips decoded a =
      if leb (length decoded) nonce_bytes
      then some (false, a)
      else if not (fits (message_size decoded))
      then none
      else elim (k.secretbox_open (drop nonce_bytes decoded) (take nonce_bytes decoded)
          (k.sha256 (k.utf8 a.code))) [
            | none ↦ some (false, a)
            | some cert ↦
                if message_size decoded == 0
                then some (false, a)
                else some (true, keep_cert (cert_key hostname ips) cert a)
          ]

  unfoldable pub process_remote_cert : Text → MdnsIpPair → Text → Auth → Option (Bool × Auth)
  unfolding remove_spaces
  process_remote_cert hostname ips [] a = some (false, a)
  process_remote_cert hostname ips (c ∷ cs) a = elim (k.base64_decode (remove_spaces (c ∷ cs))) [
    | none ↦ none
    | some decoded ↦ open_cert hostname ips decoded a
  ]
