-- ===== src/Handler/Secure.antt =====
-- `process` and `secureLoopV1` of src/service/remote_handler.cpp.
-- What the other host answers and what other threads do comes as a list of rounds; where the list ends
-- before the loop, the loop still runs.
use winpinator.Prelude.{
  ℕ, suc, Bool, true, false, not, ◌&&◌, List, [], ◌∷◌, Text, Option, none, some, ltb, if◌then◌else◌,
}
use winpinator.Remotes.Types.{offline, unreachable, awaiting_duplex}
use winpinator.Handler.Link.{
  Link, duplex_max_failures, set_remote_status, set_stub, stop_if, go_online, machine_info_received,
}

-- One round: whether another thread has stopped the remote before it, what the other host answers, and
-- whether it has been stopped by the end.
pub record Round : Type 0 where
  pub stopped_before : Bool
  -- the name in an answer to `GetRemoteMachineInfo` that has come since the round before
  pub info_answer : Option Text
  pub ping_ok : Bool
  pub duplex_ok : Bool
  pub stopped_by_end : Bool

pub record Loop : Type 0 where
  pub link : Link
  pub one_ping : Bool
  pub duplex_fail_counter : ℕ
  -- the question about the user is open
  pub info_pending : Bool

-- The callback of `updateRemoteMachineInfo`, where it is called.
unfoldable pub take_answer : Option Text → Loop → Loop
unfolding machine_info_received
take_answer none s = s
take_answer (some name) s =
    if s.info_pending
    then record s { link = machine_info_received name s.link; info_pending = false }
    else s

-- How a round ends: with the next one, by leaving the loop, or by `return`.
pub data Next : Type 0 where
  again leaves : Next
  gives : Bool → Next

-- The end of a round, up to its pause.
unfoldable pub wait_round : Round → Loop → Loop × Next
unfolding stop_if
wait_round w s =
    let t = record s { link = stop_if w.stopped_by_end s.link } in
    if t.link.info.stopping then (t, gives false) else (t, again)

-- A failed `checkDuplexConnection`.
unfoldable pub duplex_failed : Round → Loop → Loop × Next
unfolding wait_round
duplex_failed w s =
    let t = record s { duplex_fail_counter = suc s.duplex_fail_counter } in
    let late = record t { link = stop_if w.stopped_by_end t.link } in
    if ltb duplex_max_failures t.duplex_fail_counter
    then (late, gives (not late.link.info.stopping))
    else wait_round w t

-- After a ping that was answered.
unfoldable pub check_duplex : Round → Loop → Loop × Next
unfolding duplex_failed go_online
check_duplex w s =
    let asked = record s { link = set_remote_status awaiting_duplex s.link } in
    if w.duplex_ok
    then wait_round w
        (record asked { link = go_online asked.link; one_ping = true; info_pending = true })
    else duplex_failed w asked

unfoldable pub ping_round : Round → Loop → Loop × Next
unfolding check_duplex take_answer
ping_round w s =
    let r = take_answer w.info_answer s in
    let t = record r { link = stop_if w.stopped_before r.link } in
    let idle = record t.link.info { busy = false } in
    if t.link.info.stopping
    then (t, leaves)
    else if t.link.info.busy
    then wait_round w (record t { link = record t.link { info = idle } })
    else if not w.ping_ok
    then (t, leaves)
    else if t.one_ping
    then wait_round w t
    else check_duplex w t

-- What the loop does with the end of a round; the function is the rest of the loop.
unfoldable pub follow : (Loop → Loop × Next) → Loop × Next → Loop × Next
follow more (s, again) = more s
follow more (s, leaves) = (s, leaves)
follow more (s, gives b) = (s, gives b)

-- The `while` loop; `again` where it still runs.
unfoldable pub ping_loop : List Round → Loop → Loop × Next
unfolding follow
ping_loop [] s = (s, again)
ping_loop (w ∷ ws) s = follow (ping_loop ws) (ping_round w s)

-- One connection: whether it comes about, the rounds over it, and what is seen where it ends: whether
-- the mDNS record of the host is still there, and whether the remote has been stopped.
pub record Attempt : Type 0 where
  pub connects : Bool
  pub rounds : List Round
  pub zc_present : Bool
  pub stopped_at_end : Bool

unfoldable pub seen_at_end : Attempt → Link → Link
unfolding stop_if
seen_at_end a l =
    let t = stop_if a.stopped_at_end l in
    record t { info = record t.info { has_zc_presence = t.info.has_zc_presence && a.zc_present } }

-- The last test after the loop.
unfoldable pub after_loop : Attempt → Link → Link × Option Bool
unfolding seen_at_end
after_loop a l =
    let seen = seen_at_end a l in (seen, some (seen.info.has_zc_presence && not seen.info.stopping))

-- What follows the loop: nothing where it still runs or has returned.
unfoldable pub leave_loop : Attempt → Loop × Next → Link × Option Bool
unfolding after_loop
leave_loop a (s, again) = (s.link, none)
leave_loop a (s, leaves) = after_loop a s.link
leave_loop a (s, gives b) = (s.link, some b)

unfoldable pub connected_loop : Attempt → Link → Link × Option Bool
unfolding leave_loop ping_loop set_stub
connected_loop a l =
    let start : Loop = record {
      link = set_stub true l;
      one_ping = false;
      duplex_fail_counter = 0;
      info_pending = false;
    } in
    leave_loop a (ping_loop a.rounds start)

-- `none` where the loop still runs.
unfoldable pub secure_loop_v1 : Attempt → Link → Link × Option Bool
unfolding connected_loop set_remote_status
secure_loop_v1 a l =
    let lost = stop_if a.stopped_at_end (set_remote_status unreachable l) in
    if a.connects then connected_loop a l else (lost, some (not lost.info.stopping))

-- What `process` does after a connection; the function is the rest of it.
unfoldable pub process_next : (Link → Link × Bool) → Link × Option Bool → Link × Bool
unfolding set_remote_status
process_next more (t, none) = (t, false)
process_next more (t, some true) = more t
process_next more (t, some false) = (set_remote_status offline t, true)

-- `process` of a remote of the first version; the second component says whether it has ended.
unfoldable pub process_v1 : List Attempt → Link → Link × Bool
unfolding process_next secure_loop_v1
process_v1 [] l = (l, false)
process_v1 (a ∷ rest) l = process_next (process_v1 rest) (secure_loop_v1 a l)
