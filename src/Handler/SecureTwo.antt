-- ===== src/Handler/SecureTwo.antt =====
-- `process` and `secureLoopV2` of src/service/remote_handler.cpp. The thread that listens for a lost
-- connection always ends by setting `stopping`, and every way out of a connection joins it.
use winpinator.Prelude.{
  Option, none, some, Text, Bool, true, false, not, List, [], ◌∷◌, if◌then◌else◌,
}
use winpinator.Remotes.Types.{offline, unreachable, awaiting_duplex}
use winpinator.Handler.Link.{
  Link, set_remote_status, set_stub, stop_if, go_online, machine_info_received,
}

-- One connection: whether it comes about, whether the other host answers `WaitingForDuplex`, and
-- whether the remote has been stopped where the code looks.
pub record AttemptTwo : Type 0 where
  pub connects : Bool
  pub duplex_ok : Bool
  -- the name in an answer to `GetRemoteMachineInfo` that comes while the connection lasts
  pub info_answer : Option Text
  pub stopped : Bool

-- The stub is dropped and the listening thread joined.
unfoldable pub close_channel : Link → Link
unfolding set_stub stop_if
close_channel l = stop_if true (set_stub false l)

-- The callback of `updateRemoteMachineInfo`, if it is called.
unfoldable pub shown_again : Option Text → Link → Link
unfolding machine_info_received
shown_again none l = l
shown_again (some name) l = machine_info_received name l

unfoldable pub secure_loop_v2 : AttemptTwo → Link → Link × Bool
unfolding close_channel set_remote_status go_online shown_again
secure_loop_v2 a l =
    let waiting = set_remote_status awaiting_duplex (set_stub true l) in
    let unanswered = stop_if a.stopped (set_remote_status unreachable waiting) in
    let answered = stop_if a.stopped (shown_again a.info_answer (go_online waiting)) in
    let lost = stop_if a.stopped (set_remote_status unreachable l) in
    if a.connects
    then if not a.duplex_ok
      then (close_channel unanswered, not unanswered.info.stopping)
      else (close_channel answered, not answered.info.stopping)
    else (lost, not lost.info.stopping)

-- `process` of a remote of the second version, with the test of `stopping` before every connection; the
-- second component says whether it has ended.
unfoldable pub process_v2 : List AttemptTwo → Link → Link × Bool
unfolding secure_loop_v2
process_v2 [] l = if l.info.stopping then (set_remote_status offline l, true) else (l, false)
process_v2 (a ∷ rest) l =
    let later = process_v2 rest (secure_loop_v2 a l).0 in
    if l.info.stopping then (set_remote_status offline l, true) else later
