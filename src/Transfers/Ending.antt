-- ===== src/Transfers/Ending.antt =====
-- How the two ends of one transfer see its end: `requestStopTransfer` and `processDeclineTransfer`
-- on one host, `stopTransfer` and `cancelTransferRequest` on the other.
use winpinator.Prelude.{
  ℕ, ◌≡◌, refl, sym, ap, ◌∙◌, subst, inl, inr, Bool, true, false, not, Text, text_eq_refl, some,
  Listed, Distinct, arith, ltb, Option-cases, if◌then◌else◌,
}
use winpinator.Transfers.Types.{OpStatus, rpc_stop_transfer, rpc_cancel_request}
use winpinator.Transfers.State.{
  Remote, Env, Manager, emit, set_op, set_transfers, get_transfer_info, get_transfer_by_timestamp,
  convert_op_to_op_info,
}
use winpinator.Transfers.Finish.{finish_op, do_finish_transfer, send_failure_notification}
use winpinator.Transfers.Control.{
  set_status, own_cancel_status, peer_cancel_status, own_stop_status, peer_stop_status,
  process_decline_transfer, cancel_transfer_request, stop_transfer, request_stop_transfer,
  is_waiting, reply_allow_transfer, do_reply_allow_transfer,
}
use winpinator.Transfers.Lookup.{find_id_congr, find_id-id, not-Listed-erase}
use winpinator.Transfers.Invariant.{IsValid}

module _ (env : Env) (r : Text) (i p : ℕ) (m : Manager) where
  do_finish-ops : (do_finish_transfer env r i m).ops ≡ m.ops
  unfolding finish_op set_transfers
  do_finish-ops = elim (Option-cases (get_transfer_info r i m)) [
    | inl e ↦ unfold do_finish_transfer in rw (e, do_finish_transfer) refl
    | inr (q, e) ↦ unfold do_finish_transfer in rw (e, do_finish_transfer) refl
  ]

  do_finish-gone :
      Distinct (m.transfers r)
      → get_transfer_info r i m ≡ some p
      → ¬ Listed p ((do_finish_transfer env r i m).transfers r)
  unfolding do_finish_transfer finish_op set_transfers
  do_finish-gone d e =
      rw (e, do_finish_transfer) (rw (text_eq_refl r) (not-Listed-erase p (m.transfers r) d))

-- The operation has left the list of its host with the status.
pub record EndedWith (status : OpStatus) (r : Text) (p : ℕ) (n : Manager) : Type 0 where
  pub reason : (n.ops p).status ≡ status
  pub gone : ¬ Listed p (n.transfers r)

module _ (env : Env) (r : Text) (i p : ℕ) (status : OpStatus) (m : Manager)
    (d : Distinct (m.transfers r)) (found : get_transfer_info r i m ≡ some p) where
  marked_found : get_transfer_info r i (set_status p status m) ≡ some p
  unfolding get_transfer_info set_status set_op
  marked_found =
      find_id_congr m.ops (set_status p status m).ops (λ q. ground arith) i (m.transfers r) ∙ found

  marked_op : (set_status p status m).ops p ≡ record (m.ops p) { status = status }
  unfolding set_status set_op
  marked_op = ground arith

  marked_lists : (set_status p status m).transfers ≡ m.transfers
  unfolding set_status set_op
  marked_lists = refl

  ended : EndedWith status r p (do_finish_transfer env r i (set_status p status m))
  ended = record {
    reason =
        ap (λ ops. (ops p).status) (do_finish-ops env r i p (set_status p status m))
        ∙ ap (λ o. o.status) marked_op;
    gone = do_finish-gone env r i p (set_status p status m) (rw marked_lists d) marked_found;
  }

-- Naming the status from the two ends.
stop_status_agrees :
    (error outcoming : Bool)
    → own_stop_status error outcoming
      ≡ (if error then OpStatus.failed else peer_stop_status (not outcoming))
unfolding own_stop_status peer_stop_status
stop_status_agrees error outcoming = ground arith

cancel_status_agrees :
    (outcoming : Bool) → own_cancel_status outcoming ≡ peer_cancel_status (not outcoming)
unfolding own_cancel_status peer_cancel_status
cancel_status_agrees outcoming = ground arith

module _ (env : Env) (r : Text) (i p : ℕ) (m : Manager) (v : IsValid m)
    (found : get_transfer_info r i m ≡ some p) where
  found_id : (m.ops p).id ≡ i
  found_id = find_id-id m.ops i p (m.transfers r) (unfold get_transfer_info in found)

  module _ (info : Remote) (known : env.remote r ≡ some info) (stub : info.has_stub ≡ true) where
    own_end :
        (error : Bool)
        → env.rpc_ok ≡ true
        → (n : Manager) × (request_stop_transfer env r i error m ≡ some n)
          × EndedWith (own_stop_status error (m.ops p).outcoming) r p n
    own_end error answered =
        let request = convert_op_to_op_info env (m.ops p) (ltb 0 m.compression_level) in
        let called = emit (rpc_stop_transfer r request error) m in
        let d : Distinct (called.transfers r) = unfold emit in v.distinct r in
        let f : get_transfer_info r i called ≡ some p = unfold emit get_transfer_info in found in
        (
          do_finish_transfer env r i
              (set_status p (own_stop_status error (m.ops p).outcoming) called),
          unfold request_stop_transfer in
              rw (found, request_stop_transfer)
                (rw (known, request_stop_transfer) (rw (stub, answered) refl)),
          ended env r i p (own_stop_status error (m.ops p).outcoming) called d f,
        )

    own_cancel :
        (n : Manager) × (process_decline_transfer env r p m ≡ some n)
        × EndedWith (own_cancel_status (m.ops p).outcoming) r p n
    own_cancel =
        let request = convert_op_to_op_info env (m.ops p) (ltb 0 m.compression_level) in
        let called = emit (rpc_cancel_request r request) m in
        let d : Distinct (called.transfers r) = unfold emit in v.distinct r in
        let f : get_transfer_info r (m.ops p).id called ≡ some p =
          rw found_id (unfold emit get_transfer_info in found) in
        (
          do_finish_transfer env r (m.ops p).id
              (set_status p (own_cancel_status (m.ops p).outcoming) called),
          unfold process_decline_transfer in rw (known, process_decline_transfer) (rw stub refl),
          ended env r (m.ops p).id p (own_cancel_status (m.ops p).outcoming) called d f,
        )

  self_found : get_transfer_info r (m.ops p).id m ≡ some p
  self_found = rw found_id found

  peer_end :
      (error : Bool)
      → EndedWith
          (if error then OpStatus.failed else peer_stop_status (m.ops p).outcoming)
          r
          p
          (stop_transfer env r i error m)
  unfolding emit set_status set_op get_transfer_info
  peer_end true =
      let name = if (m.ops p).outcoming then (m.ops p).receiver_name else (m.ops p).sender_name in
      unfold stop_transfer send_failure_notification in
      rw (found, stop_transfer)
        (ended env r (m.ops p).id p OpStatus.failed (send_failure_notification r name m)
          (v.distinct r) self_found)
  peer_end false =
      unfold stop_transfer in
      rw (found, stop_transfer)
        (ended env r (m.ops p).id p (peer_stop_status (m.ops p).outcoming) m (v.distinct r)
          self_found)

  peer_cancel :
      (timestamp : ℕ)
      → get_transfer_by_timestamp r timestamp m ≡ some p
      → EndedWith
          (peer_cancel_status (m.ops p).outcoming)
          r
          p
          (cancel_transfer_request env r timestamp m)
  unfolding cancel_transfer_request
  peer_cancel timestamp same =
      rw (same, cancel_transfer_request)
        (ended env r (m.ops p).id p (peer_cancel_status (m.ops p).outcoming) m (v.distinct r)
          self_found)

-- One transfer as its two hosts hold it: `p` on this one, for the remote `r`, and `q` on the other,
-- for the remote `s`.
module _ (env peer_env : Env) (r s : Text) (i j p q : ℕ) (m k : Manager) (info : Remote)
    (valid : IsValid m) (peer_valid : IsValid k) (found : get_transfer_info r i m ≡ some p)
    (peer_found : get_transfer_info s j k ≡ some q)
    (ends : (k.ops q).outcoming ≡ not (m.ops p).outcoming) (known : env.remote r ≡ some info)
    (stub : info.has_stub ≡ true) where
  -- When one host stops a transfer, or gives it up after an error, and its call is answered, both
  -- hosts take it from their lists with the same reason, whichever of them sends the files.
  pub stop_transfer-agrees :
      (error : Bool)
      → env.rpc_ok ≡ true
      → (reason : OpStatus) × (n : Manager) × (request_stop_transfer env r i error m ≡ some n)
        × EndedWith reason r p n
        × EndedWith reason s q (stop_transfer peer_env s j error k)
  stop_transfer-agrees error answered =
      let (n, run, own) = own_end env r i p m valid found info known stub error answered in
      (
        own_stop_status error (m.ops p).outcoming,
        n,
        run,
        own,
        subst (λ reason. EndedWith reason s q (stop_transfer peer_env s j error k))
            (ap (λ o. if error then OpStatus.failed else peer_stop_status o) ends
              ∙ sym (stop_status_agrees error (m.ops p).outcoming))
            (peer_end peer_env s j q k peer_valid peer_found error),
      )

  -- When one host withdraws or declines a request, both hosts take it from their lists with the same
  -- reason, whichever of them had asked.
  pub cancel_request-agrees :
      (timestamp : ℕ)
      → get_transfer_by_timestamp s timestamp k ≡ some q
      → is_waiting (m.ops p).status ≡ true
      → (reason : OpStatus) × (n : Manager) × (reply_allow_transfer env r i false m ≡ some n)
        × EndedWith reason r p n
        × EndedWith reason s q (cancel_transfer_request peer_env s timestamp k)
  unfolding reply_allow_transfer do_reply_allow_transfer
  cancel_request-agrees timestamp same waiting =
      let (n, run, own) = own_cancel env r i p m valid found info known stub in
      (
        own_cancel_status (m.ops p).outcoming,
        n,
        rw (found, do_reply_allow_transfer) (rw waiting run),
        own,
        subst (λ reason. EndedWith reason s q (cancel_transfer_request peer_env s timestamp k))
            (ap peer_cancel_status ends ∙ sym (cancel_status_agrees (m.ops p).outcoming))
            (peer_cancel peer_env s j q k peer_valid peer_found timestamp same),
      )
