-- ===== src/Handler/Register.antt =====
-- `doRegistrationV1` and `doRegistrationV2` of src/service/remote_manager.cpp: asking a host for its
-- certificate. The replies come as a list; `none` is that the thread still asks.
use winpinator.Prelude.{
  ℕ, ◌+◌, Bool, false, List, [], ◌∷◌, Text, Option, none, some, ltb, if◌then◌else◌,
}
use winpinator.Remotes.Types.{RemoteInfo}
use winpinator.Auth.State.{Auth}
use winpinator.Auth.Certs.{Crypto, process_remote_cert}

-- What one `RecvFrom` brings: nothing within the second, a datagram of another address, or one of the
-- host. With the silence comes whether the remote is stopped by the end of the pause that follows the
-- third.
pub data Reply : Type 0 where
  silence : Bool → Reply
  stranger : Text → Reply
  from_host : Text → Reply

abbrev pub retry_limit : ℕ
retry_limit = 3

-- How asking ended: an exception, or a result with the certificates then.
pub data Registration : Type 0 where
  asking raised : Registration
  registered : Bool → Auth → Registration

abbrev pub answered : Option (Bool × Auth) → Registration
answered none = raised
answered (some (ok, a)) = registered ok a

module _ (k : Crypto) (info : RemoteInfo) (a : Auth) where
  -- The two loops, with `tryCount`.
  unfoldable pub do_registration_v1 : ℕ → List Reply → Registration
  unfolding process_remote_cert
  do_registration_v1 tries [] = asking
  do_registration_v1 tries (silence stops ∷ rest) =
      let next = do_registration_v1 (tries + 1) rest in
      let anew = do_registration_v1 0 rest in
      if ltb (tries + 1) retry_limit then next else if stops then registered false a else anew
  do_registration_v1 tries (stranger message ∷ rest) = do_registration_v1 tries rest
  do_registration_v1 tries (from_host message ∷ rest) =
      answered (process_remote_cert k info.hostname info.ips message a)

  -- One round of the second version: no connection or no answer, or the boxed certificate.
  unfoldable pub do_registration_v2 : List (Bool × Option Text) → Registration
  unfolding process_remote_cert
  do_registration_v2 [] = asking
  do_registration_v2 ((stops, none) ∷ rest) =
      let next = do_registration_v2 rest in if stops then registered false a else next
  do_registration_v2 ((stops, some cert) ∷ rest) =
      answered (process_remote_cert k info.hostname info.ips cert a)
