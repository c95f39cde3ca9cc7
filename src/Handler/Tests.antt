-- ===== src/Handler/Tests.antt =====
-- A remote of each version that is reached, lost and announced again, and the loss of its transfers.
use winpinator.Prelude.{
  ◌≡◌, refl, Bool, true, false, List, [], ◌∷◌, ◌++◌, Text, codes, text_eq, none, some,
  if◌then◌else◌, drop,
}
use winpinator.Prelude.Int.{ℤ, pos}
use winpinator.Remotes.Types.{RemoteStatus, MdnsIpPair, MdnsServiceData, RemoteInfo, ip_pair_eq}
use winpinator.Remotes.Hosts
use winpinator.Remotes.Hosts.{new_info, key_of, key_eq, in_set, process_add_host}
use winpinator.Transfers.State.{Manager}
use winpinator.Transfers.Invariant.Failing.{AllFailed}
use winpinator.Service.Inputs.{peer, peer_info, env, accepted, accepted-IsValid}
use winpinator.Auth.State.{Auth}
use winpinator.Auth.Certs.{Crypto, mac_bytes}
use winpinator.Handler.Link.{Told, edited, Link, stop_if}
use winpinator.Handler.Register.{silence, stranger, from_host}
use winpinator.Handler.Secure.{
  take_answer, Round, Attempt, process_v1, ping_round, check_duplex, duplex_failed, wait_round,
}
use winpinator.Handler.SecureTwo.{AttemptTwo, process_v2}
use winpinator.Handler.Thread.{Outside, edit_listener, remote_thread_entry}
use winpinator.Handler.Endings.{Once, lost_tries, process_v2-Once}
use winpinator.Handler.Lost.{process_v1-AllFailed, process_v1-not_restarted}
use winpinator.Handler.Strangers.{Courses, first_from_host, remote_thread_entry-Courses}

abbrev address : MdnsIpPair
address = record { valid = true; ipv4 = codes "10.0.0.2"; ipv6 = [] }

abbrev host : RemoteInfo
host = record (new_info (codes "peer-host") address) {
  id = peer;
  api_version = 1;
  has_zc_presence = true;
}

abbrev link : Link
link = record { info = host; log = [] }

-- The duplex fails once and then comes about; the third ping is lost, with the announcement.
abbrev round : Bool → Bool → Round
round ping duplex = record {
  stopped_before = false;
  info_answer = some (codes "Peer");
  ping_ok = ping;
  duplex_ok = duplex;
  stopped_by_end = false;
}

abbrev attempt : Attempt
attempt = record {
  connects = true;
  rounds = round true false ∷ round true true ∷ round false false ∷ [];
  zc_present = false;
  stopped_at_end = false;
}

abbrev ended : Link
ended = (process_v1 (attempt ∷ []) link).0

ended_run : process_v1 (attempt ∷ []) link ≡ (ended, true)
unfolding process_v1 ping_round take_answer wait_round stop_if check_duplex duplex_failed
ended_run = refl

ended_known : env.remote ended.info.id ≡ some peer_info
unfolding process_v1 ping_round take_answer wait_round stop_if check_duplex duplex_failed text_eq
ended_known = refl

process_v1-AllFailed_example :
    (before : List Told) × (n : Manager) × (ended.log ≡ edited RemoteStatus.offline ∷ before)
    × (edit_listener env ended.info.id (edited RemoteStatus.offline) accepted ≡ some n)
    × AllFailed ended.info.id accepted n
process_v1-AllFailed_example =
    process_v1-AllFailed (attempt ∷ []) link ended ended_run env peer_info ended_known accepted
      accepted-IsValid

abbrev service : MdnsServiceData
service = record {
  name = codes "peer._warpinator._tcp.local.";
  srv_name = codes "peer.local.";
  port = 42000;
  ipv4 = codes "10.0.0.2";
  ipv6 = [];
  txt_records = λ k.
      if text_eq k (codes "type")
      then some (codes "real")
      else if text_eq k (codes "hostname")
      then some (codes "peer-host")
      else none;
}

abbrev read_number : Text → ℤ
read_number t = pos 1

abbrev listed : Hosts.Manager
listed = record {
  hosts = ended.info ∷ [];
  host_set = key_of ended.info ∷ [];
  srv_type = codes "_warpinator._tcp.local.";
}

ended_live : ended.info.stopping ≡ false
unfolding process_v1 ping_round take_answer wait_round stop_if check_duplex duplex_failed
ended_live = refl

ended_address : ended.info.ips ≡ record { valid = true; ipv4 = service.ipv4; ipv6 = service.ipv6 }
unfolding process_v1 ping_round take_answer wait_round stop_if check_duplex duplex_failed
ended_address = refl

ended_old : in_set (key_of ended.info) listed.host_set ≡ true
unfolding process_v1 ping_round take_answer wait_round stop_if check_duplex duplex_failed in_set
    key_eq ip_pair_eq text_eq
ended_old = refl

service_real : service.txt_records (codes "type") ≡ some (codes "real")
unfolding text_eq
service_real = refl

service_named : service.txt_records (codes "hostname") ≡ some ended.info.hostname
unfolding process_v1 ping_round take_answer wait_round stop_if check_duplex duplex_failed text_eq
service_named = refl

process_v1-not_restarted_example :
    (ended.info.has_zc_presence ≡ false) × (process_add_host read_number service listed ≡ listed)
process_v1-not_restarted_example =
    process_v1-not_restarted (attempt ∷ []) link ended ended_run ended_live read_number service
      listed [] [] refl ended_address ended_old service_real service_named

abbrev lost : AttemptTwo
lost = record { connects = false; duplex_ok = false; info_answer = none; stopped = false }

abbrev unanswered : AttemptTwo
unanswered = record { connects = true; duplex_ok = false; info_answer = none; stopped = false }

abbrev reached : AttemptTwo
reached = record {
  connects = true;
  duplex_ok = true;
  info_answer = some (codes "Peer");
  stopped = false;
}

process_v2-Once_example :
    Once false none (lost_tries 1 []) (process_v2 (lost ∷ unanswered ∷ reached ∷ []) link)
process_v2-Once_example =
    process_v2-Once (lost ∷ []) unanswered (reached ∷ []) link ((refl, refl), tt) refl refl

-- A box is its message behind a code of sixteen bytes, and every other function leaves its text.
abbrev plain : Crypto
plain = record {
  utf8 = λ t. t;
  base64_encode = λ t. t;
  base64_decode = λ t. some t;
  sha256 = λ t. t;
  secretbox = λ m n k. codes "0123456789abcdef" ++ m;
  secretbox_open = λ b n k. some (drop mac_bytes b);
}

abbrev own : Auth
own = record {
  hostname = codes "pc";
  ident = codes "PC-1";
  ips = address;
  port = 42000;
  code = codes "Warpinator";
  server_pub_key = codes "PEM";
  server_private_key = codes "SECRET";
  remote_certs = λ k. none;
  keyfile = record { code = codes "Warpinator"; connect_id = codes "PC-1" };
  stored = record { code = codes "Warpinator"; connect_id = codes "PC-1" };
}

abbrev reply : Text
reply = codes "abcdefghijklmnopqrstuvwx0123456789abcdefPEM"

abbrev outside : Outside
outside = record {
  replies = silence false ∷ stranger (codes "no") ∷ from_host reply ∷ [];
  answers = [];
  stopped_between = false;
  attempts_v1 = attempt ∷ [];
  attempts_v2 = [];
}

remote_thread_entry-Courses_example :
    Courses plain host own
      (first_from_host outside.replies)
      (remote_thread_entry plain outside host own)
remote_thread_entry-Courses_example = remote_thread_entry-Courses plain host own outside refl
