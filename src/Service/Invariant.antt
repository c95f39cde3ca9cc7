-- ===== src/Service/Invariant.antt =====
-- The invariant of the transfer manager holds after every sequence of steps.
use winpinator.Prelude.{
  ℕ, ◌≡◌, refl, subst, inl, inr, Bool, true, false, [], list_cases, length, zero, suc, Text, Option,
  Option-cases, none, some, Listed, arith, Bool-cases, ◌==◌, if◌then◌else◌,
}
use mathlib.Core.Path.{fun_ext}
use winpinator.Transfers.Types.{OpStatus, TransferOp, OpInfo, TransferOpRequest}
use winpinator.Transfers.State.{
  Env, Manager, set_op, get_transfer_info, get_op, find_timestamp, get_transfers_for_remote,
}
use winpinator.Transfers.Settings.{
  new_manager, set_output_path, set_compression_level, set_must_allow_incoming,
  set_must_allow_overwrite, set_preserve_zone_info, set_unix_permission_masks,
}
use winpinator.Transfers.Finish.{
  do_finish_transfer, finish_transfer, fail_all, fail_all_loop, fail_all_name, fail_op,
}
use winpinator.Transfers.Control.{reply_allow_transfer, begin_outcoming_transfer}
use winpinator.Transfers.Register.{register_transfer}
use winpinator.Transfers.Lookup.{find_id-Listed, find_id-id, find_timestamp-Listed}
use winpinator.Transfers.Invariant.{IsValid, IsActive, is_waiting}
use winpinator.Transfers.Invariant.Keeps.{
  Keeps, Kept, Keeps-refl, Keeps-IsValid, Kept-of_Keeps, set_op-Keeps, close-Keeps,
}
use winpinator.Transfers.Invariant.Control.{
  pause_transfer-Keeps, resume_transfer-Kept, do_reply_allow_transfer-Kept,
  cancel_transfer_request-Keeps, stop_transfer-Keeps, request_stop_transfer-Kept,
  begin_outcoming_transfer-Kept,
}
use winpinator.Transfers.Invariant.Failing.{fail_op-Keeps}
use winpinator.Transfers.Invariant.Stored.{end_outcoming_transfer-Keeps}
use winpinator.Transfers.Invariant.Registering.{register_transfer-IsValid, register_again-Kept}
use winpinator.Transfers.Invariant.Outgoing.{
  Sound, Sound-of_Kept, create_outcoming_transfer-Sound, notify_crawler_succeeded-Kept,
  notify_crawler_failed-Keeps,
}
use winpinator.Rpc.Requests.{
  Status, ok, cancelled, reply, incoming_op, repeat_request, process_transfer_op_request,
  start_transfer, cancel_transfer_op_request, stop_transfer_call,
}
use winpinator.Service.Events.{
  Event, state_of, begun_or, handle, Step, handled, sent, listed, progressed, call_ended, Reach,
  here, next,
}
use winpinator.Receiver.Keeping.{update_paths-Keeps, update_progress-Keeps, on_done_begin-Keeps}

set_op-transfers :
    (p : ℕ) (op : TransferOp) (m : Manager) (r : Text)
    → Listed p (m.transfers r)
    → Listed p ((set_op p op m).transfers r)
unfolding set_op
set_op-transfers p op m r l = l

set_op_self : (p : ℕ) (m : Manager) → set_op p (m.ops p) m ≡ m
unfolding set_op
set_op_self p m = λ i. record m { ops = fun_ext same i }
  where
    same : (q : ℕ) → (if q == p then m.ops p else m.ops q) ≡ m.ops q
    same q = ground arith

finish_transfer-Keeps :
    (env : Env) (r : Text) (i : ℕ) (m : Manager) → IsValid m → Keeps m (finish_transfer env r i m)
unfolding get_transfer_info
finish_transfer-Keeps env r i m v = elim (Option-cases (get_transfer_info r i m)) [
  | inl e ↦ unfold finish_transfer do_finish_transfer in rw (e, do_finish_transfer) (Keeps-refl m)
  | inr (p, e) ↦
      let closed =
        close-Keeps env r p (m.ops p) m v (find_id-Listed m.ops i p (m.transfers r) e) refl refl in
      unfold finish_transfer in
      subst (λ j. Keeps m (do_finish_transfer env r j m)) (find_id-id m.ops i p (m.transfers r) e)
        (subst (λ n. Keeps m (do_finish_transfer env r (m.ops p).id n)) (set_op_self p m) closed)
]

-- The loop of `failAll`, also where it meets a null pointer.
module _ (env : Env) (r : Text) where
  fail_all_loop-Sound :
      (fuel : ℕ) (name : Text) (m : Manager)
      → IsValid m
      → Sound (state_of (fail_all_loop env r fuel name m))
  unfolding fail_all_loop
  fail_all_loop-Sound zero name m v = v
  fail_all_loop-Sound (suc fuel) name m v = elim (list_cases (m.transfers r)) [
    | inl e ↦ rw (e, fail_all_loop) v
    | inr (q, qs, e) ↦
        let after = (fail_op env q m).1 in
        let valid = Keeps-IsValid m after (fail_op-Keeps env r q m v (rw e (inl refl))) v in
        elim (Option-cases (fail_all_name env r (after.ops q) name)) [
          | inl f ↦ rw (e, fail_all_loop) (rw (f, fail_all_loop) tt)
          | inr (name', f) ↦
              rw (e, fail_all_loop)
                (rw (f, fail_all_loop) (fail_all_loop-Sound fuel name' after valid))
        ]
  ]

  fail_all-Sound : (m : Manager) → IsValid m → Sound (fail_all env r m)
  fail_all-Sound m v = elim (Option-cases (fail_all_loop env r (length (m.transfers r)) [] m)) [
    | inl e ↦ unfold fail_all in rw (e, fail_all) tt
    | inr ((name, n), e) ↦
        unfold fail_all in
        rw (e, fail_all)
          (subst (λ o. Sound (state_of o)) e (fail_all_loop-Sound (length (m.transfers r)) [] m v))
  ]

-- The calls of other hosts.
repeat_request-Kept :
    (env : Env) (id : Text) (info : OpInfo) (p : ℕ) (m : Manager)
    → IsValid m
    → Listed p (m.transfers id)
    → Kept m (repeat_request env id info p m)
unfolding repeat_request
repeat_request-Kept env id info p m v l =
    let op = record (m.ops p) {
      use_compression = info.use_compression;
      status = OpStatus.waiting_permission;
    } in
    let written = set_op-Keeps p op m refl refl (λ _. is_waiting) in
    Kept-of_Keeps m _ _ written (
      register_again-Kept env id p (set_op p op m) (Keeps-IsValid m _ written v)
        (set_op-transfers p op m id l))

Sound-reply : (s : Status) (o : Option Manager) → Sound o → Sound (state_of (reply s o))
Sound-reply s none h = tt
Sound-reply s (some n) h = h

registered-Sound :
    (env : Env) (r : Text) (op : TransferOp) (m : Manager)
    → IsValid m
    → IsActive op.status
    → Sound (register_transfer env r op m)
registered-Sound env r op m v a = elim (Option-cases (register_transfer env r op m)) [
  | inl e ↦ rw e tt
  | inr (n, e) ↦ rw e (register_transfer-IsValid env r op m n v a e).0
]

module _ (env : Env) (available : Text → Bool) (m : Manager) (v : IsValid m) where
  process_transfer_op_request-Sound :
      (has_info : Bool) (request : TransferOpRequest)
      → Sound (state_of (process_transfer_op_request env available has_info request m))
  unfolding process_transfer_op_request get_transfers_for_remote incoming_op
  process_transfer_op_request-Sound false request = v
  process_transfer_op_request-Sound true request =
      let id = request.info.ident in
      let t = request.info.timestamp in
      elim (Bool-cases (available id)) [
        | inl a ↦ elim (Option-cases (find_timestamp m.ops t (m.transfers id))) [
          | inl e ↦ rw a (
              rw (e, process_transfer_op_request)
                (Sound-reply ok _ (registered-Sound env id (incoming_op request) m v is_waiting)))
          | inr (p, e) ↦ rw a (
              rw (e, process_transfer_op_request)
                (Sound-reply ok _ (
                  Sound-of_Kept m _ v (
                    repeat_request-Kept env id request.info p m v
                      (find_timestamp-Listed m.ops t p (m.transfers id) e)))))
        ]
        | inr a ↦ rw a v
      ]

  begun-IsValid :
      (id : Text) (i : ℕ)
      → IsValid (
          begun_or m
            (elim (begin_outcoming_transfer id i m) as (λ x. Status × Option (ℕ × Manager)) [
              | none ↦ (cancelled, none)
              | some begun ↦ (ok, some begun)
            ]).1)
  begun-IsValid id i = elim (Option-cases (begin_outcoming_transfer id i m)) [
    | inl e ↦ rw e v
    | inr ((p, n), e) ↦ rw e (
        Keeps-IsValid m n
          (subst (λ o. Kept m (state_of o)) e (begin_outcoming_transfer-Kept id i m)) v)
  ]

  start_transfer-IsValid :
      (info : OpInfo) → IsValid (begun_or m (start_transfer env available info m).1)
  start_transfer-IsValid info = elim (Bool-cases (available info.ident)) [
    | inl a ↦ elim (Option-cases (get_op info.ident info.timestamp m)) [
      | inl e ↦ unfold start_transfer in rw a (rw (e, start_transfer) v)
      | inr (op, e) ↦
          unfold start_transfer in rw a (rw (e, start_transfer) (begun-IsValid info.ident op.id))
    ]
    | inr a ↦ unfold start_transfer in rw a v
  ]

  cancel_transfer_op_request-IsValid :
      (info : OpInfo) → IsValid (cancel_transfer_op_request env available info m).1
  cancel_transfer_op_request-IsValid info = elim (Bool-cases (available info.ident)) [
    | inl a ↦ elim (Option-cases (get_op info.ident info.timestamp m)) [
      | inl e ↦ unfold cancel_transfer_op_request in rw a (rw (e, cancel_transfer_op_request) v)
      | inr (op, e) ↦
          unfold cancel_transfer_op_request in
          rw a (
            rw (e, cancel_transfer_op_request)
              (Keeps-IsValid m _ (cancel_transfer_request-Keeps env info.ident info.timestamp m v)
                v))
    ]
    | inr a ↦ unfold cancel_transfer_op_request in rw a v
  ]

  stop_transfer_call-IsValid :
      (has_info : Bool) (info : OpInfo) (error : Bool)
      → IsValid (stop_transfer_call env available has_info info error m).1
  stop_transfer_call-IsValid false info error = unfold stop_transfer_call in v
  stop_transfer_call-IsValid true info error = elim (Bool-cases (available info.ident)) [
    | inl a ↦ elim (Option-cases (get_op info.ident info.timestamp m)) [
      | inl e ↦ unfold stop_transfer_call in rw a (rw (e, stop_transfer_call) v)
      | inr (op, e) ↦
          unfold stop_transfer_call in
          rw a (
            rw (e, stop_transfer_call)
              (Keeps-IsValid m _ (stop_transfer-Keeps env info.ident op.id error m v) v))
    ]
    | inr a ↦ unfold stop_transfer_call in rw a v
  ]

-- A setting is no part of the invariant.
configured-IsValid :
    (m : Manager) (path : Text) (level : ℕ) (incoming overwrite zone : Bool) (file exec dir : ℕ)
    → IsValid m
    → IsValid (record m {
      output_path = path;
      compression_level = level;
      must_allow_incoming = incoming;
      must_allow_overwrite = overwrite;
      preserve_zone_info = zone;
      file_perms = file;
      exec_perms = exec;
      dir_perms = dir;
    })
configured-IsValid m path level incoming overwrite zone file exec dir v = record {
  owned = v.owned;
  stored = v.stored;
  active = v.active;
  numbered = v.numbered;
  separate = v.separate;
  distinct = v.distinct;
  crawling = v.crawling;
}

handle-Sound :
    (env : Env) (available : Text → Bool) (e : Event) (m : Manager)
    → IsValid m
    → Sound (handle env available e m)
unfolding handle reply_allow_transfer set_output_path set_compression_level set_must_allow_incoming
    set_must_allow_overwrite set_preserve_zone_info set_unix_permission_masks
handle-Sound env available (Event.accept_transfer_clicked r i) m v =
    Sound-of_Kept m _ v (do_reply_allow_transfer-Kept env r i true m v)
handle-Sound env available (Event.decline_transfer_clicked r i) m v =
    Sound-of_Kept m _ v (do_reply_allow_transfer-Kept env r i false m v)
handle-Sound env available (Event.stop_transfer r i) m v =
    Sound-of_Kept m _ v (request_stop_transfer-Kept env r i false m v)
handle-Sound env available (Event.request_outcoming_transfer r paths) m v =
    create_outcoming_transfer-Sound env r paths m v
handle-Sound env available (Event.outcoming_crawler_succeeded out) m v =
    Sound-of_Kept m _ v (notify_crawler_succeeded-Kept env out m v)
handle-Sound env available (Event.outcoming_crawler_failed job) m v =
    Keeps-IsValid m _ (notify_crawler_failed-Keeps env job m v) v
handle-Sound env available (Event.pause_clicked r i) m v =
    Keeps-IsValid m _ (pause_transfer-Keeps r i m) v
handle-Sound env available (Event.resume_clicked r i) m v =
    Sound-of_Kept m _ v (resume_transfer-Kept r i m)
handle-Sound env available (Event.transfer_requested has_info request) m v =
    process_transfer_op_request-Sound env available m v has_info request
handle-Sound env available (Event.transfer_started info) m v =
    start_transfer-IsValid env available m v info
handle-Sound env available (Event.request_cancelled info) m v =
    cancel_transfer_op_request-IsValid env available m v info
handle-Sound env available (Event.transfer_stopped has_info info error) m v =
    stop_transfer_call-IsValid env available m v has_info info error
handle-Sound env available (Event.receiving_done r i) m v =
    Keeps-IsValid m _ (finish_transfer-Keeps env r i m v) v
handle-Sound env available (Event.receiving_failed r i) m v =
    Sound-of_Kept m _ v (request_stop_transfer-Kept env r i true m v)
handle-Sound env available (Event.remote_lost r) m v = fail_all-Sound env r m v
handle-Sound env available (Event.output_path_set path) m v = configured-IsValid m _ _ _ _ _ _ _ _ v
handle-Sound env available (Event.compression_set level) m v =
    configured-IsValid m _ _ _ _ _ _ _ _ v
handle-Sound env available (Event.incoming_set must) m v = configured-IsValid m _ _ _ _ _ _ _ _ v
handle-Sound env available (Event.overwrite_set must) m v = configured-IsValid m _ _ _ _ _ _ _ _ v
handle-Sound env available (Event.zone_info_set preserve) m v =
    configured-IsValid m _ _ _ _ _ _ _ _ v
handle-Sound env available (Event.masks_set file executable directory) m v =
    configured-IsValid m _ _ _ _ _ _ _ _ v

new_manager-IsValid : (memory : ℕ → TransferOp) → IsValid (new_manager memory)
unfolding new_manager
new_manager-IsValid memory = record {
  owned = λ r p l. absurd l;
  stored = λ r p l. absurd l;
  active = λ r p l. absurd l;
  numbered = λ p h. elim h [ ];
  separate = λ p q h. elim h [ ];
  distinct = λ r. tt;
  crawling = λ j p e. cc;
}

Step-IsValid : {m n : Manager} → Step m n → IsValid m → IsValid n
Step-IsValid {m} (handled env available e n h) v = subst Sound h (handle-Sound env available e m v)
Step-IsValid {m} (sent env r p result stored owner) v =
    Keeps-IsValid m _ (end_outcoming_transfer-Keeps env r p result m v stored owner) v
Step-IsValid {m} (listed normalize from_utf8 full_name_of p chunk) v =
    Keeps-IsValid m _ (update_paths-Keeps normalize from_utf8 full_name_of p chunk m) v
Step-IsValid {m} (progressed env r p bytes) v =
    Keeps-IsValid m _ (update_progress-Keeps env r p bytes m) v
Step-IsValid {m} (call_ended env r p) v = Keeps-IsValid m _ (on_done_begin-Keeps env r p m) v

-- From a new manager, whatever events, calls of other hosts, ends of sending threads and writes and
-- failures of receiving ones follow, in any order and in any environment, every listed transfer belongs
-- to the host of its list, has an id of its own and is still active, no list holds one twice, and every
-- crawl job holds a stored operation, as long as no step meets a null pointer.
pub Reach-IsValid :
    (memory : ℕ → TransferOp) (m : Manager) → Reach (new_manager memory) m → IsValid m
Reach-IsValid memory m here = new_manager-IsValid memory
Reach-IsValid memory m (next {n} reached step) = Step-IsValid step (Reach-IsValid memory n reached)
