-- ===== src/Auth/State.antt =====
-- The state of `AuthManager` (src/service/auth_manager.hpp), its keyfile and its settings.
--
-- `wxFileConfig` is the two entries that the code reads and writes; an entry that is not there reads
-- as empty. Random and generated values, the key pair of OpenSSL among them, are arguments.
use winpinator.Prelude.{ℕ, [], ◌∷◌, ◌++◌, Text, codes, text_eq, Option, none, some, if◌then◌else◌}
use winpinator.Remotes.Types.{MdnsIpPair}

pub record Keyfile : Type 0 where
  pub code : Text
  pub connect_id : Text

pub record Auth : Type 0 where
  pub hostname : Text
  pub ident : Text
  pub ips : MdnsIpPair
  pub port : ℕ
  pub code : Text
  pub server_pub_key : Text
  pub server_private_key : Text
  pub remote_certs : Text → Option Text
  -- `m_keyfile`, and the file at `m_path`
  pub keyfile : Keyfile
  pub stored : Keyfile

abbrev pub default_group_code : Text
default_group_code = codes "Warpinator"

unfoldable pub load_keyfile : Auth → Auth
load_keyfile a = record a { keyfile = a.stored }

unfoldable pub save_keyfile : Auth → Auth
save_keyfile a = record a { stored = a.keyfile }

-- `upper` is `wxString::Upper`, `uuid` the result of `Utils::generateUUID`; the text is the entry that
-- the keyfile has.
unfoldable pub take_ident : (Text → Text) → Text → Text → Auth → Auth
unfolding save_keyfile
take_ident upper uuid [] a =
    let ident = upper a.hostname ++ codes "-" ++ uuid in
    record (save_keyfile (record a { keyfile = record a.keyfile { connect_id = ident } })) {
      ident = ident;
    }
take_ident upper uuid (c ∷ cs) a = record a { ident = c ∷ cs }

unfoldable pub read_ident : (Text → Text) → Text → Auth → Auth
unfolding take_ident
read_ident upper uuid a = take_ident upper uuid a.keyfile.connect_id a

unfoldable pub take_group_code : Text → Auth → Auth
unfolding save_keyfile
take_group_code [] a = save_keyfile (record a {
  code = default_group_code;
  keyfile = record a.keyfile { code = default_group_code };
})
take_group_code (c ∷ cs) a = record a { code = c ∷ cs }

unfoldable pub read_group_code : Auth → Auth
unfolding take_group_code
read_group_code a = take_group_code a.keyfile.code a

-- `none` is a failure of OpenSSL; a pair is the PEM texts of the certificate and of the private key.
unfoldable pub make_key_cert_pair : Option (Text × Text) → Auth → Auth
make_key_cert_pair none a = a
make_key_cert_pair (some (public_key, private_key)) a = record a {
  server_pub_key = public_key;
  server_private_key = private_key;
}

unfoldable pub update : (Text → Text) → Text → Option (Text × Text) → MdnsIpPair → ℕ → Auth → Auth
unfolding load_keyfile read_ident read_group_code make_key_cert_pair
update upper uuid made ips port a =
    make_key_cert_pair made
      (read_group_code (read_ident upper uuid (load_keyfile (record a { ips = ips; port = port }))))

unfoldable pub update_group_code : Text → Auth → Auth
unfolding save_keyfile text_eq
update_group_code code a =
    if text_eq code a.code
    then a
    else save_keyfile (record a { keyfile = record a.keyfile { code = code } })
