-- ===== src/Service/Inputs.antt =====
-- A small network for the tests: one peer, its request, and the manager after its acceptance.
use winpinator.Prelude.{
  ℕ, ◌≡◌, refl, Bool, true, false, [], ◌∷◌, Text, codes, Option, none, some, text_eq, if◌then◌else◌,
}
use winpinator.Prelude.Int.{pos}
use winpinator.Transfers.Types.{TransferOp, OpInfo, TransferOpRequest}
use winpinator.Transfers.State.{
  Remote, Env, Manager, get_transfer_info, find_id, find_timestamp, get_transfers_for_remote, emit,
  set_op, set_transfers, convert_op_to_op_info, send_status_update_notification,
}
use winpinator.Transfers.Register.{
  register_transfer, registered_op, prepare_transfer, check_transfer_disk_space,
  check_transfer_must_overwrite, set_transfer_timestamp, set_up_pause_lock, some_name_exists,
  contains_char, starts_alone, send_notifications, push_transfer,
}
use winpinator.Transfers.Settings.{new_manager}
use winpinator.Transfers.Control.{
  reply_allow_transfer, do_reply_allow_transfer, is_waiting, process_start_transfer, set_status,
}
use winpinator.Transfers.Invariant.{IsValid}
use winpinator.Rpc.Requests.{incoming_op, process_transfer_op_request}
use winpinator.Service.Events.{Event, handle, Reach, handled, here, next}
use winpinator.Service.Invariant.{Reach-IsValid}

abbrev pub peer : Text
peer = codes "peer"

abbrev pub peer_info : Remote
peer_info = record {
  full_name = codes "Peer User";
  hostname = codes "peer-host";
  ipv4 = codes "10.0.0.2";
  os = codes "Linux";
  has_stub = true;
}

abbrev pub env : Env
env = record {
  ident = codes "self";
  own_hostname = codes "self-host";
  user_full_name = codes "Own User";
  time = 1700;
  monotonic_time = 40;
  remote = λ r. if text_eq r peer then some peer_info else none;
  free_space = 1000;
  exists = λ dir name. false;
  dir_exists = λ path. false;
  file_exists = λ path. true;
  full_name_of = λ path. path;
  mime_type_of = λ path. none;
  elements_label = λ n. codes "elements";
  rpc_ok = true;
}

abbrev pub info : OpInfo
info = record {
  ident = peer;
  timestamp = 99;
  readable_name = codes "peer-host";
  use_compression = false;
}

abbrev pub request : TransferOpRequest
request = record {
  info = info;
  sender_name = codes "Peer User";
  receiver_name = codes "Own User";
  receiver = codes "self";
  size = pos 64;
  count = 1;
  name_if_single = codes "a.txt";
  mime_if_single = codes "text/plain";
  top_dir_basenames = codes "a.txt" ∷ [];
}

abbrev pub memory : ℕ → TransferOp
memory p = incoming_op request

abbrev pub everyone : Text → Bool
everyone r = true

abbrev pub or_empty : Option Manager → Manager
or_empty none = new_manager memory
or_empty (some m) = m

abbrev pub is_set : Option Manager → Bool
is_set none = false
is_set (some m) = true

pub run_eq : (x : Option Manager) → is_set x ≡ true → x ≡ some (or_empty x)
run_eq none e = cc
run_eq (some m) e = refl

-- What a request and its acceptance compute through, for the tests.
unfoldable pub stepping : Unit {0}
unfolding handle process_transfer_op_request register_transfer registered_op prepare_transfer
    check_transfer_disk_space check_transfer_must_overwrite set_transfer_timestamp set_up_pause_lock
    some_name_exists contains_char starts_alone send_notifications push_transfer set_transfers
    set_op emit find_timestamp get_transfers_for_remote incoming_op new_manager text_eq
    reply_allow_transfer do_reply_allow_transfer get_transfer_info find_id is_waiting
    process_start_transfer convert_op_to_op_info set_status send_status_update_notification
stepping = tt

-- The manager after the request.
abbrev pub waiting : Manager
waiting =
    or_empty (handle env everyone (Event.transfer_requested true request) (new_manager memory))

-- The manager after the user has accepted it.
abbrev pub accepted : Manager
accepted = or_empty (handle env everyone (Event.accept_transfer_clicked peer 0) waiting)

pub waiting_run :
    handle env everyone (Event.transfer_requested true request) (new_manager memory) ≡ some waiting
unfolding stepping
waiting_run = run_eq _ refl

pub accepted_run :
    handle env everyone (Event.accept_transfer_clicked peer 0) waiting ≡ some accepted
unfolding stepping
accepted_run = run_eq _ refl

pub accepted_found : get_transfer_info peer 0 accepted ≡ some 0
unfolding stepping
accepted_found = refl

pub accepted-Reach : Reach (new_manager memory) accepted
accepted-Reach =
    next (next here (handled env everyone _ waiting waiting_run))
      (handled env everyone _ accepted accepted_run)

pub accepted-IsValid : IsValid accepted
accepted-IsValid = Reach-IsValid memory accepted accepted-Reach

pub peer_known : env.remote peer ≡ some peer_info
unfolding text_eq
peer_known = refl
