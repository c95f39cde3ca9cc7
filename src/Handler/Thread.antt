-- ===== src/Handler/Thread.antt =====
-- `remoteThreadEntry` of src/service/remote_manager.cpp: a host is registered, shown, and handed to
-- its handler, whose listener fails the host's transfers at every status but `ONLINE`.
use winpinator.Prelude.{Bool, true, false, List, [], Text, Option, some, ◌==◌, if◌then◌else◌}
use winpinator.Remotes.Types.{RemoteStatus, RemoteInfo, init_connecting}
use winpinator.Auth.State.{Auth}
use winpinator.Auth.Certs.{Crypto}
use winpinator.Transfers.State.{Env, Manager}
use winpinator.Transfers.Finish.{fail_all}
use winpinator.Handler.Link.{Told, edited, asked_info, asked_avatar, Link, stop_if}
use winpinator.Handler.Register.{
  Reply, Registration, asking, raised, registered, do_registration_v1, do_registration_v2,
}
use winpinator.Handler.Secure.{Attempt, process_v1}
use winpinator.Handler.SecureTwo.{AttemptTwo, process_v2}

-- What comes from outside while the thread runs; `stopped_between` is a stop between the registration
-- and the test after it.
pub record Outside : Type 0 where
  pub replies : List Reply
  pub answers : List (Bool × Option Text)
  pub stopped_between : Bool
  pub attempts_v1 : List Attempt
  pub attempts_v2 : List AttemptTwo

-- Where the thread is: still asking for the certificate, ended by an exception or before the host was
-- shown, or in the handler, which may have ended.
pub data Course : Type 0 where
  still_asking broken_off : Course
  never_shown : Auth → Link → Course
  handled : Auth → Link → Bool → Course

unfoldable pub register : Crypto → Outside → RemoteInfo → Auth → Registration
unfolding do_registration_v1 do_registration_v2
register k o info a =
    if info.api_version == 1
    then do_registration_v1 k info a 0 o.replies
    else if info.api_version == 2
    then do_registration_v2 k info a o.answers
    else registered true a

-- `RemoteHandler::process`
unfoldable pub process : Outside → Link → Link × Bool
unfolding process_v1 process_v2
process o l =
    let first = process_v1 o.attempts_v1 l in
    let second = process_v2 o.attempts_v2 l in
    if l.info.api_version == 1 then first else if l.info.api_version == 2 then second else (l, true)

unfoldable pub show_host : RemoteInfo → Link
show_host info = record { info = record info { visible = true; state = init_connecting }; log = [] }

unfoldable pub after_registration : Outside → RemoteInfo → Registration → Course
unfolding process show_host stop_if
after_registration o info asking = still_asking
after_registration o info raised = broken_off
after_registration o info (registered false a) = never_shown a (record { info = info; log = [] })
after_registration o info (registered true a) =
    let seen = stop_if o.stopped_between (record { info = info; log = [] }) in
    let (l, over) = process o (show_host seen.info) in
    if seen.info.stopping then never_shown a seen else handled a l over

unfoldable pub remote_thread_entry : Crypto → Outside → RemoteInfo → Auth → Course
unfolding register after_registration
remote_thread_entry k o info a = after_registration o info (register k o info a)

abbrev pub is_online : RemoteStatus → Bool
is_online RemoteStatus.online = true
is_online _ = false

-- The edit listener, as far as it acts on the transfers of the host.
unfoldable pub edit_listener : Env → Text → Told → Manager → Option Manager
unfolding fail_all
edit_listener env id (edited status) m = if is_online status then some m else fail_all env id m
edit_listener env id asked_info m = some m
edit_listener env id asked_avatar m = some m
