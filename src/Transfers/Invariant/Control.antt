-- ===== src/Transfers/Invariant/Control.antt =====
-- The commands of Transfers/Control.antt keep the invariant.
use winpinator.Prelude.{
  ℕ, ◌≡◌, refl, subst, inl, inr, Bool, true, false, Text, Option, none, some, Listed, Bool-cases,
  Option-cases, not, ◌&&◌, if◌then◌else◌,
}
use winpinator.Transfers.Types.{OpStatus, Effect, toast_failed}
use winpinator.Transfers.State.{
  Env, Manager, emit, set_op, get_transfer_info, get_transfer_by_timestamp,
  send_status_update_notification,
}
use winpinator.Transfers.Finish.{do_finish_transfer, send_failure_notification}
use winpinator.Transfers.Control.{
  set_status, set_pause_lock, is_paused, is_transferring, is_waiting, resume_transfer,
  pause_transfer, process_start_transfer, process_decline_transfer, do_reply_allow_transfer,
  cancel_transfer_request, stop_transfer, request_stop_transfer, begin_outcoming_transfer,
}
use winpinator.Transfers.Lookup.{find_id-Listed, find_id-id, find_timestamp-Listed}
use winpinator.Transfers.Invariant.{
  IsActive, IsValid, is_transferring as active_transferring, is_paused as active_paused,
}
use winpinator.Transfers.Invariant.Keeps.{
  Keeps, Kept, Keeps-refl, Keeps-trans, Keeps-IsValid, emit-Keeps, set_op-Keeps, close-Keeps,
}

pub set_status-Keeps :
    (p : ℕ) (s : OpStatus) (m : Manager) → IsActive s → Keeps m (set_status p s m)
unfolding set_status
set_status-Keeps p s m a = set_op-Keeps p _ m refl refl (λ _. a)

set_pause_lock-Keeps : (p : ℕ) (b : Bool) (m : Manager) → Keeps m (set_pause_lock p b m)
unfolding set_pause_lock
set_pause_lock-Keeps p b m = set_op-Keeps p _ m refl refl (λ a. a)

-- A new state, the pause lock, and the news of it.
locked-Keeps :
    (r : Text) (p : ℕ) (s : OpStatus) (b : Bool) (m : Manager)
    → IsActive s
    → Keeps m (send_status_update_notification r p (set_status p s (set_pause_lock p b m)))
unfolding send_status_update_notification
locked-Keeps r p s b m a =
    let locked = set_pause_lock p b m in
    let marked = set_status p s locked in
    Keeps-trans m marked _
      (Keeps-trans m locked marked (set_pause_lock-Keeps p b m) (set_status-Keeps p s locked a))
      (emit-Keeps _ marked)

pub pause_transfer-Keeps : (r : Text) (i : ℕ) (m : Manager) → Keeps m (pause_transfer r i m)
pause_transfer-Keeps r i m = elim (Option-cases (get_transfer_info r i m)) [
  | inl e ↦ unfold pause_transfer in rw (e, pause_transfer) (Keeps-refl m)
  | inr (p, e) ↦ elim (Bool-cases (is_transferring (m.ops p).status)) [
    | inl t ↦
        unfold pause_transfer in
        rw (e, pause_transfer) (rw t (locked-Keeps r p OpStatus.paused true m active_paused))
    | inr t ↦ unfold pause_transfer in rw (e, pause_transfer) (rw t (Keeps-refl m))
  ]
]

pub resume_transfer-Kept : (r : Text) (i : ℕ) (m : Manager) → Kept m (resume_transfer r i m)
resume_transfer-Kept r i m = elim (Option-cases (get_transfer_info r i m)) [
  | inl e ↦ unfold resume_transfer in rw (e, resume_transfer) tt
  | inr (p, e) ↦ elim (Bool-cases (is_paused (m.ops p).status)) [
    | inl t ↦
        unfold resume_transfer in
        rw (e, resume_transfer)
          (rw t (locked-Keeps r p OpStatus.transferring false m active_transferring))
    | inr t ↦ unfold resume_transfer in rw (e, resume_transfer) (rw t (Keeps-refl m))
  ]
]

process_start_transfer-Kept :
    (env : Env) (r : Text) (p : ℕ) (m : Manager) → Kept m (process_start_transfer env r p m)
process_start_transfer-Kept env r p m = elim (Option-cases (env.remote r)) [
  | inl e ↦ unfold process_start_transfer in rw (e, process_start_transfer) (Keeps-refl m)
  | inr (info, e) ↦ elim (Bool-cases info.has_stub) [
    | inl t ↦
        unfold process_start_transfer in
        rw (e, process_start_transfer)
          (rw t (
            Keeps-trans m _ _ (emit-Keeps _ m) (
              Keeps-trans _ _ _ (set_status-Keeps p OpStatus.transferring _ active_transferring)
                (emit-Keeps _ _))))
    | inr t ↦ unfold process_start_transfer in rw (e, process_start_transfer) (rw t tt)
  ]
]

-- An end state, written after a message, and the end of the transfer.
told_close-Keeps :
    (env : Env) (r : Text) (p : ℕ) (s : OpStatus) (e : Effect) (m : Manager)
    → IsValid m
    → Listed p (m.transfers r)
    → Keeps m (do_finish_transfer env r (m.ops p).id (set_status p s (emit e m)))
unfolding set_status emit
told_close-Keeps env r p s e m v here =
    let told = emit e m in
    Keeps-trans m told _ (emit-Keeps e m) (
      close-Keeps env r p (record (m.ops p) { status = s }) told
        (Keeps-IsValid m told (emit-Keeps e m) v) here refl refl)

status_close-Keeps :
    (env : Env) (r : Text) (p : ℕ) (s : OpStatus) (m : Manager)
    → IsValid m
    → Listed p (m.transfers r)
    → Keeps m (do_finish_transfer env r (m.ops p).id (set_status p s m))
unfolding set_status
status_close-Keeps env r p s m v here =
    close-Keeps env r p (record (m.ops p) { status = s }) m v here refl refl

process_decline_transfer-Kept :
    (env : Env) (r : Text) (p : ℕ) (m : Manager)
    → IsValid m
    → Listed p (m.transfers r)
    → Kept m (process_decline_transfer env r p m)
process_decline_transfer-Kept env r p m v here = elim (Option-cases (env.remote r)) [
  | inl e ↦ unfold process_decline_transfer in rw (e, process_decline_transfer) (Keeps-refl m)
  | inr (info, e) ↦ elim (Bool-cases info.has_stub) [
    | inl t ↦
        unfold process_decline_transfer in
        rw (e, process_decline_transfer) (rw t (told_close-Keeps env r p _ _ m v here))
    | inr t ↦ unfold process_decline_transfer in rw (e, process_decline_transfer) (rw t tt)
  ]
]

found-Listed :
    (r : Text) (i p : ℕ) (m : Manager) → get_transfer_info r i m ≡ some p → Listed p (m.transfers r)
unfolding get_transfer_info
found-Listed r i p m e = find_id-Listed m.ops i p (m.transfers r) e

found-id : (r : Text) (i p : ℕ) (m : Manager) → get_transfer_info r i m ≡ some p → (m.ops p).id ≡ i
unfolding get_transfer_info
found-id r i p m e = find_id-id m.ops i p (m.transfers r) e

answered-Kept :
    (env : Env) (r : Text) (p : ℕ) (waiting allow outcoming : Bool) (m : Manager)
    → IsValid m
    → Listed p (m.transfers r)
    → Kept m (
        if not waiting
        then some m
        else if allow && not outcoming
        then process_start_transfer env r p m
        else if not allow
        then process_decline_transfer env r p m
        else some m)
answered-Kept env r p false allow outcoming m v here = Keeps-refl m
answered-Kept env r p true true false m v here = process_start_transfer-Kept env r p m
answered-Kept env r p true true true m v here = Keeps-refl m
answered-Kept env r p true false outcoming m v here = process_decline_transfer-Kept env r p m v here

pub do_reply_allow_transfer-Kept :
    (env : Env) (r : Text) (i : ℕ) (allow : Bool) (m : Manager)
    → IsValid m
    → Kept m (do_reply_allow_transfer env r i allow m)
do_reply_allow_transfer-Kept env r i allow m v = elim (Option-cases (get_transfer_info r i m)) [
  | inl e ↦ unfold do_reply_allow_transfer in rw (e, do_reply_allow_transfer) (Keeps-refl m)
  | inr (p, e) ↦
      unfold do_reply_allow_transfer in
      rw (e, do_reply_allow_transfer)
        (answered-Kept env r p (is_waiting (m.ops p).status) allow (m.ops p).outcoming m v
          (found-Listed r i p m e))
]

pub cancel_transfer_request-Keeps :
    (env : Env) (r : Text) (t : ℕ) (m : Manager)
    → IsValid m
    → Keeps m (cancel_transfer_request env r t m)
unfolding get_transfer_by_timestamp
cancel_transfer_request-Keeps env r t m v = elim (Option-cases (get_transfer_by_timestamp r t m)) [
  | inl e ↦ unfold cancel_transfer_request in rw (e, cancel_transfer_request) (Keeps-refl m)
  | inr (p, e) ↦
      unfold cancel_transfer_request in
      rw (e, cancel_transfer_request)
        (status_close-Keeps env r p _ m v (find_timestamp-Listed m.ops t p (m.transfers r) e))
]

stopped-Keeps :
    (env : Env) (r : Text) (p : ℕ) (name : Text) (s : OpStatus) (error : Bool) (m : Manager)
    → IsValid m
    → Listed p (m.transfers r)
    → Keeps m (
        do_finish_transfer env r (m.ops p).id (
          if error
          then send_failure_notification r name (set_status p OpStatus.failed m)
          else set_status p s m))
unfolding send_failure_notification set_status emit set_op
stopped-Keeps env r p name s true m v here =
    told_close-Keeps env r p OpStatus.failed (toast_failed r name) m v here
stopped-Keeps env r p name s false m v here = status_close-Keeps env r p s m v here

pub stop_transfer-Keeps :
    (env : Env) (r : Text) (i : ℕ) (error : Bool) (m : Manager)
    → IsValid m
    → Keeps m (stop_transfer env r i error m)
stop_transfer-Keeps env r i error m v = elim (Option-cases (get_transfer_info r i m)) [
  | inl e ↦ unfold stop_transfer in rw (e, stop_transfer) (Keeps-refl m)
  | inr (p, e) ↦
      unfold stop_transfer in
      rw (e, stop_transfer) (stopped-Keeps env r p _ _ error m v (found-Listed r i p m e))
]

asked_stop-Kept :
    (env : Env) (r : Text) (i p : ℕ) (s : OpStatus) (e : Effect) (stub ok : Bool) (m : Manager)
    → IsValid m
    → get_transfer_info r i m ≡ some p
    → Kept m (
        if not stub
        then none
        else if not ok
        then some (emit e m)
        else some (do_finish_transfer env r i (set_status p s (emit e m))))
asked_stop-Kept env r i p s e false ok m v found = tt
asked_stop-Kept env r i p s e true false m v found = emit-Keeps e m
asked_stop-Kept env r i p s e true true m v found =
    subst (λ j. Keeps m (do_finish_transfer env r j (set_status p s (emit e m))))
      (found-id r i p m found) (told_close-Keeps env r p s e m v (found-Listed r i p m found))

pub request_stop_transfer-Kept :
    (env : Env) (r : Text) (i : ℕ) (error : Bool) (m : Manager)
    → IsValid m
    → Kept m (request_stop_transfer env r i error m)
request_stop_transfer-Kept env r i error m v = elim (Option-cases (get_transfer_info r i m)) [
  | inl e ↦ unfold request_stop_transfer in rw (e, request_stop_transfer) (Keeps-refl m)
  | inr (p, e) ↦ elim (Option-cases (env.remote r)) [
    | inl f ↦ unfold request_stop_transfer in rw (e, request_stop_transfer) (rw f (Keeps-refl m))
    | inr (info, f) ↦
        unfold request_stop_transfer in
        rw (e, request_stop_transfer)
          (rw f (asked_stop-Kept env r i p _ _ info.has_stub env.rpc_ok m v e))
  ]
]

abbrev pub state_of : Option (ℕ × Manager) → Option Manager
state_of none = none
state_of (some (p, m)) = some m

pub begin_outcoming_transfer-Kept :
    (r : Text) (i : ℕ) (m : Manager) → Kept m (state_of (begin_outcoming_transfer r i m))
begin_outcoming_transfer-Kept r i m = elim (Option-cases (get_transfer_info r i m)) [
  | inl e ↦ unfold begin_outcoming_transfer in rw (e, begin_outcoming_transfer) tt
  | inr (p, e) ↦
      unfold begin_outcoming_transfer in
      rw (e, begin_outcoming_transfer)
        (Keeps-trans m _ _ (set_status-Keeps p OpStatus.transferring m active_transferring)
          (emit-Keeps _ _))
]
