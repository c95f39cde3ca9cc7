-- ===== src/Handler/Link.antt =====
-- The state that `RemoteHandler` (src/service/remote_handler.cpp) works on, and `setRemoteStatus`.
-- The log holds what the handler tells and asks, newest first: the calls of the edit listener with the
-- status that they show, and the two calls that ask the other host about its user. Other threads set
-- `stopping`, and the thread of gRPC takes the answer about the user, which is shown as `ONLINE` again;
-- what they do comes with the rounds of the loops.
use winpinator.Prelude.{ℕ, ◌∷◌, Bool, ◌||◌, List, Text}
use winpinator.Remotes.Types.{RemoteStatus, RemoteInfo, online}

pub data Told : Type 0 where
  edited : RemoteStatus → Told
  asked_info asked_avatar : Told

pub record Link : Type 0 where
  pub info : RemoteInfo
  pub log : List Told

abbrev pub duplex_max_failures : ℕ
duplex_max_failures = 10

unfoldable pub set_remote_status : RemoteStatus → Link → Link
set_remote_status status l = record {
  info = record l.info { state = status };
  log = edited status ∷ l.log;
}

unfoldable pub set_stub : Bool → Link → Link
set_stub is_set l = record l { info = record l.info { has_stub = is_set } }

-- `stop` of another thread, or nothing.
unfoldable pub stop_if : Bool → Link → Link
stop_if stops l = record l { info = record l.info { stopping = l.info.stopping || stops } }

-- `ONLINE`, and the two questions.
unfoldable pub go_online : Link → Link
unfolding set_remote_status
go_online l =
    let shown = set_remote_status online l in
    record shown { log = asked_avatar ∷ asked_info ∷ shown.log }

-- The answer to `GetRemoteMachineInfo`, whenever it comes.
unfoldable pub machine_info_received : Text → Link → Link
unfolding set_remote_status
machine_info_received display_name l =
    set_remote_status online (record l { info = record l.info { full_name = display_name } })
