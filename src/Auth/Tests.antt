-- ===== src/Auth/Tests.antt =====
-- Two hosts with a toy box, and the keyfile of one.
use winpinator.Prelude.{
  ◌+◌, ◌-◌, ◌≡◌, ◌≢◌, refl, ap, ◌∙◌, Bool, true, false, [], ◌∷◌, ◌++◌, Text, codes, text_eq,
  ne_of_text_eq, Option, none, some, All, length-append, drop, drop-append_self, arith,
}
use winpinator.Remotes.Types.{MdnsIpPair}
use winpinator.Auth.State.{Auth, update, update_group_code}
use winpinator.Auth.Certs.{
  mac_bytes, is_space, remove_spaces, Crypto, IsLawful, cert_key, get_cached_cert,
  get_encoded_local_cert, process_remote_cert, open_cert, message_size,
}
use winpinator.Auth.Exchange.{process-get_encoded_local_cert, process_remote_cert_short}
use winpinator.Auth.Keyfile.{update-restart, update-update_group_code}

-- Every byte as itself above the spaces: a code that is easy to undo.
abbrev shift : Text → Text
shift [] = []
shift (c ∷ cs) = (c + 33) ∷ shift cs

abbrev unshift : Text → Text
unshift [] = []
unshift (c ∷ cs) = (c - 33) ∷ unshift cs

unshift-shift : (t : Text) → unshift (shift t) ≡ t
unshift-shift [] = refl
unshift-shift (c ∷ cs) =
    let same : c + 33 - 33 ≡ c = omega arith in
    ap (λ d. d ∷ unshift (shift cs)) same ∙ ap (λ ds. c ∷ ds) (unshift-shift cs)

shift_spaces : (t : Text) → All (λ c. is_space c ≡ false) (shift t)
unfolding is_space
shift_spaces [] = tt
shift_spaces (c ∷ cs) = (ground arith, shift_spaces cs)

shift_empty : (t : Text) → shift t ≡ [] → t ≡ []
shift_empty [] e = refl
shift_empty (c ∷ cs) e = cc

abbrev mac : Text
mac = codes "0123456789abcdef"

abbrev toy : Crypto
toy = record {
  utf8 = λ t. t;
  base64_encode = shift;
  base64_decode = λ t. some (unshift t);
  sha256 = λ t. t;
  secretbox = λ m n k. mac ++ m;
  secretbox_open = λ b n k. some (drop mac_bytes b);
}

toy-IsLawful : IsLawful toy
toy-IsLawful = record {
  decode-encode = λ t. ap some (unshift-shift t);
  encode_empty = shift_empty;
  encode_spaces = shift_spaces;
  open-secretbox = λ m n k. ap some (drop-append_self mac m);
  length-secretbox = λ m n k. omega (arith, length-append mac m);
}

abbrev address : MdnsIpPair
address = record { valid = true; ipv4 = codes "10.0.0.2"; ipv6 = [] }

abbrev host : Auth
host = record {
  hostname = codes "pc";
  ident = codes "PC-1";
  ips = address;
  port = 42000;
  code = codes "Warpinator";
  server_pub_key = codes "PEM";
  server_private_key = codes "SECRET";
  remote_certs = λ k. none;
  keyfile = record { code = codes "Warpinator"; connect_id = codes "PC-1" };
  stored = record { code = codes "Warpinator"; connect_id = codes "PC-1" };
}

abbrev nonce : Text
nonce = codes "abcdefghijklmnopqrstuvwx"

abbrev other_key : Text
other_key = codes "else"

other_key_differs : other_key ≢ cert_key (codes "pc") address
unfolding cert_key text_eq
other_key_differs = ne_of_text_eq other_key (cert_key (codes "pc") address) refl

process-get_encoded_local_cert_example :
    (c : Auth) × (process_remote_cert toy
        (codes "pc")
        address
        (get_encoded_local_cert toy nonce host)
        host
      ≡ some (true, c))
    × (get_cached_cert (codes "pc") address c ≡ codes "PEM")
    × (c.remote_certs other_key ≡ none)
process-get_encoded_local_cert_example =
    process-get_encoded_local_cert toy toy-IsLawful nonce (codes "pc") address host host refl refl
      (omega arith) (omega arith) other_key other_key_differs

abbrev thirty : Text
thirty = codes "abcdefghijklmnopqrstuvwxyzabcd"

abbrev reply : Text
reply = shift thirty

reply_some : reply ≢ []
reply_some e = cc

reply_decodes : toy.base64_decode (remove_spaces reply) ≡ some thirty
unfolding remove_spaces is_space
reply_decodes = refl

process_remote_cert_short_example : process_remote_cert toy (codes "pc") address reply host ≡ none
process_remote_cert_short_example =
    process_remote_cert_short toy (codes "pc") address reply thirty host reply_some reply_decodes
      (omega arith) (omega arith)

abbrev spaced : Text
spaced = b' ' ∷ shift (nonce ++ mac ++ codes "PEM")

abbrev auth_of : Option (Bool × Auth) → Auth
auth_of none = host
auth_of (some (ok, a)) = a

abbrev taken : Auth
taken = auth_of (process_remote_cert toy (codes "pc") address spaced host)

spaced-taken : process_remote_cert toy (codes "pc") address spaced host ≡ some (true, taken)
unfolding process_remote_cert open_cert remove_spaces is_space message_size
spaced-taken = refl

abbrev upper : Text → Text
upper t = t

abbrev first : Auth
first = update upper (codes "uuid") none address 42000 host

update-restart_example :
    ((update upper (codes "other") none address 42000 first).ident ≡ first.ident)
    × ((update upper (codes "other") none address 42000 first).code ≡ first.code)
    × (first.ident ≢ [])
    × (first.code ≢ [])
update-restart_example =
    update-restart upper (codes "uuid") (codes "other") none none address address 42000 42000 host
      first refl

abbrev office : Text
office = codes "Office"

office_new : office ≢ host.code
unfolding text_eq
office_new = ne_of_text_eq office host.code refl

office_some : office ≢ []
office_some e = cc

update-update_group_code_example :
    ((update_group_code office host).code ≡ host.code)
    × ((update upper (codes "uuid") none address 42000 (update_group_code office host)).code
        ≡ office)
    × ((update upper
          (codes "uuid")
          none
          address
          42000
          (update_group_code host.code (update_group_code office host))).code
        ≡ office)
update-update_group_code_example =
    update-update_group_code upper (codes "uuid") none address 42000 office host office_new
      office_some
