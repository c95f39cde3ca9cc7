-- ===== src/Transfers/Starting.antt =====
-- When an incoming transfer starts without an answer of the user: `registerTransfer` with
-- `firstTry`.
use winpinator.Prelude.{
  ◌+◌, ◌≡◌, refl, sym, ap, ◌∙◌, subst, ◌⊎◌, inl, inr, Bool, true, false, not, [], ◌∷◌, ◌++◌, Text,
  text_eq_refl, Option, none, some, Listed, Listed-append_right, arith, ltb, if◌then◌else◌,
}
use winpinator.Transfers.Types.{
  OpStatus, TransferOp, toast_accept, add_transfer, update_transfer, rpc_start_transfer,
}
use winpinator.Transfers.State.{
  Remote, Env, Manager, emit, set_op, set_transfers, find_id, get_transfer_info,
  send_status_update_notification, convert_op_to_op_info,
}
use winpinator.Transfers.Control.{
  do_reply_allow_transfer, process_start_transfer, set_status, is_waiting,
}
use winpinator.Transfers.Register.{
  some_name_exists, prepare_transfer, registered_op, starts_alone, send_notifications,
  push_transfer, register_transfer,
}
use winpinator.Transfers.Lookup.{find_id_self}
use winpinator.Transfers.Invariant.{IsActive, IsValid}
use winpinator.Transfers.Invariant.Registering.{registered, registered-IsValid}

module _ (env : Env) (r : Text) (op : TransferOp) (m : Manager) where
  abbrev transfer : TransferOp
  transfer = registered_op env r op m

  -- The settings and the disk let the transfer start alone.
  abbrev pub Unasked : Type 0
  Unasked =
      (m.must_allow_incoming ≡ false)
      ⊎ ((m.must_allow_overwrite ≡ false)
          × (some_name_exists (env.exists m.output_path) op.top_dir_basenames ≡ true))

  abbrev pub Asked : Type 0
  Asked =
      (m.must_allow_incoming ≡ true)
      × ((m.must_allow_overwrite ≡ true)
          ⊎ (some_name_exists (env.exists m.output_path) op.top_dir_basenames ≡ false))

  starts_alone_cases :
      op.outcoming ≡ false
      → ((starts_alone m transfer ≡ true) × Unasked) ⊎ ((starts_alone m transfer ≡ false) × Asked)
  unfolding starts_alone registered_op prepare_transfer
  starts_alone_cases incoming = ground arith

  -- The state in which the new operation is listed and the user told, asked or not.
  abbrev listed : Bool → Manager
  listed asked =
      push_transfer r transfer
        (emit (toast_accept r transfer asked) (record m { last_id = m.last_id + 1 }))

  notified :
      op.outcoming ≡ false
      → (asked : Bool) (o : Manager)
      → send_notifications r transfer asked o ≡ emit (toast_accept r transfer asked) o
  unfolding send_notifications registered_op prepare_transfer
  notified incoming asked o = rw incoming refl

  listed_new : (asked : Bool) → (listed asked).ops m.next_op ≡ transfer
  unfolding push_transfer emit
  listed_new asked = ground arith

  listed_list : (asked : Bool) → (listed asked).transfers r ≡ m.transfers r ++ m.next_op ∷ []
  unfolding push_transfer emit set_transfers
  listed_list asked = rw (text_eq_refl r) refl

  listed_effects :
      (asked : Bool) → (listed asked).effects ≡ toast_accept r transfer asked ∷ m.effects
  unfolding push_transfer emit set_transfers
  listed_effects asked = refl

  registered_listed :
      op.outcoming ≡ false → registered env r op m ≡ listed (not (starts_alone m transfer))
  registered_listed incoming =
      ap (push_transfer r transfer)
        (notified incoming (not (starts_alone m transfer)) (record m { last_id = m.last_id + 1 }))

  -- The new id finds the new operation.
  listed_found :
      IsValid m
      → IsActive op.status
      → op.outcoming ≡ false
      → get_transfer_info r transfer.id (listed (not (starts_alone m transfer))) ≡ some m.next_op
  unfolding get_transfer_info
  listed_found v active incoming =
      let state = listed (not (starts_alone m transfer)) in
      let valid : IsValid state =
        subst IsValid (registered_listed incoming) (registered-IsValid env r op m v active) in
      let new = listed_new (not (starts_alone m transfer)) in
      let here : Listed m.next_op (state.transfers r) =
        rw (listed_list (not (starts_alone m transfer)))
          (Listed-append_right m.next_op (m.transfers r) (m.next_op ∷ []) (inl refl)) in
      subst (λ i. find_id state.ops i (state.transfers r) ≡ some m.next_op) (ap (λ o. o.id) new)
        (find_id_self state.ops m.next_op (state.transfers r) here (λ q l e.
          valid.separate q m.next_op (valid.stored r q l) (valid.stored r m.next_op here) e))

  abbrev announced : Option Manager → Option Manager
  announced replied = elim replied [
    | none ↦ none
    | some done ↦ some (emit (add_transfer r transfer) done)
  ]

  abbrev answered : Bool → Manager → Option Manager
  answered autostart state =
      if autostart then do_reply_allow_transfer env r transfer.id true state else some state

  register_eq :
      op.outcoming ≡ false
      → register_transfer env r op m
        ≡ announced (answered (starts_alone m transfer) (listed (not (starts_alone m transfer))))
  unfolding register_transfer
  register_eq incoming =
      ap (λ o. announced (answered (starts_alone m transfer) o)) (registered_listed incoming)

  register_asked :
      op.outcoming ≡ false
      → starts_alone m transfer ≡ false
      → register_transfer env r op m ≡ some (emit (add_transfer r transfer) (listed true))
  register_asked incoming alone =
      register_eq incoming ∙ ap (λ b. announced (answered b (listed (not b)))) alone

  -- The state after the transfer has started by itself.
  abbrev begun : Manager
  begun = send_status_update_notification r m.next_op (
      set_status m.next_op OpStatus.transferring (
        emit
          (rpc_start_transfer r (convert_op_to_op_info env transfer (ltb 0 m.compression_level))
            transfer.must_overwrite)
          (listed false)))

  listed_compression : (listed false).compression_level ≡ m.compression_level
  unfolding push_transfer emit set_transfers
  listed_compression = refl

  module _ (info : Remote) (known : env.remote r ≡ some info) (stub : info.has_stub ≡ true) where
    process_start_eq : process_start_transfer env r m.next_op (listed false) ≡ some begun
    unfolding process_start_transfer
    process_start_eq =
        rw (known, process_start_transfer) (rw (stub, listed_new false, listed_compression) refl)

    reply_eq :
        op.outcoming ≡ false
        → op.status ≡ OpStatus.waiting_permission
        → get_transfer_info r transfer.id (listed false) ≡ some m.next_op
        → do_reply_allow_transfer env r transfer.id true (listed false) ≡ some begun
    unfolding do_reply_allow_transfer registered_op prepare_transfer
    reply_eq incoming waits found =
        let waiting : is_waiting ((listed false).ops m.next_op).status ≡ true =
          unfold is_waiting in
          ap (λ o. is_waiting o.status) (listed_new false) ∙ ap is_waiting waits in
        let inbound : ((listed false).ops m.next_op).outcoming ≡ false =
          ap (λ o. o.outcoming) (listed_new false) ∙ incoming in
        rw (found, do_reply_allow_transfer) (rw (waiting, inbound) process_start_eq)

    register_alone :
        IsValid m
        → op.outcoming ≡ false
        → op.status ≡ OpStatus.waiting_permission
        → starts_alone m transfer ≡ true
        → register_transfer env r op m ≡ some (emit (add_transfer r transfer) begun)
    register_alone v incoming waits alone =
        let active : IsActive op.status = subst IsActive (sym waits) IsActive.is_waiting in
        let found : get_transfer_info r transfer.id (listed false) ≡ some m.next_op =
          subst (λ b. get_transfer_info r transfer.id (listed (not b)) ≡ some m.next_op) alone
            (listed_found v active incoming) in
        register_eq incoming
        ∙ ap (λ b. announced (answered b (listed (not b)))) alone
        ∙ ap announced (reply_eq incoming waits found)

  begun_op : begun.ops m.next_op ≡ record transfer { status = OpStatus.transferring }
  unfolding send_status_update_notification set_status set_op emit push_transfer
  begun_op = ground arith

  begun_list : begun.transfers r ≡ m.transfers r ++ m.next_op ∷ []
  unfolding send_status_update_notification set_status set_op emit
  begun_list = listed_list false

  begun_effects :
      begun.effects
      ≡ update_transfer r (begun.ops m.next_op)
        ∷ rpc_start_transfer r
            (convert_op_to_op_info env transfer (ltb 0 m.compression_level))
            transfer.must_overwrite
        ∷ toast_accept r transfer false
        ∷ m.effects
  unfolding send_status_update_notification set_status set_op emit push_transfer set_transfers
  begun_effects = refl

  -- The new operation and what has been told when the user is asked, and when the transfer starts.
  pub Waits : Manager → Type 0
  Waits n =
      (n.ops m.next_op ≡ transfer)
      × (n.effects ≡ add_transfer r transfer ∷ toast_accept r transfer true ∷ m.effects)

  pub Starts : Manager → Type 0
  Starts n =
      let started = record transfer { status = OpStatus.transferring } in
      (n.ops m.next_op ≡ started)
      × (n.effects
          ≡ add_transfer r transfer
            ∷ update_transfer r started
            ∷ rpc_start_transfer r (convert_op_to_op_info env transfer (ltb 0 m.compression_level))
                transfer.must_overwrite
            ∷ toast_accept r transfer false
            ∷ m.effects)

  asked_result : Waits (emit (add_transfer r transfer) (listed true))
  unfolding Waits emit
  asked_result = (listed_new true, ap (λ es. add_transfer r transfer ∷ es) (listed_effects true))

  alone_result : Starts (emit (add_transfer r transfer) begun)
  unfolding Starts emit
  alone_result =
      (begun_op, ap (λ es. add_transfer r transfer ∷ es) (rw begun_effects (rw begun_op refl)))

  -- The first request of a known host with a connection is listed last, whatever the settings. It
  -- starts without an answer of the user, by one call to the host, when approval of incoming files is
  -- switched off, or when approval of overwriting is switched off and one of its names exists already;
  -- otherwise the user is asked and it waits. So a request that overwrites files may start where one
  -- that overwrites nothing would have to wait.
  pub register_transfer_cases :
      (info : Remote)
      → IsValid m
      → env.remote r ≡ some info
      → info.has_stub ≡ true
      → op.outcoming ≡ false
      → op.status ≡ OpStatus.waiting_permission
      → (n : Manager) × (register_transfer env r op m ≡ some n)
        × (n.transfers r ≡ m.transfers r ++ m.next_op ∷ [])
        × ((Unasked × Starts n) ⊎ (Asked × Waits n))
  register_transfer_cases info v known stub incoming waits = elim (starts_alone_cases incoming) [
    | inl (alone, unasked) ↦ (
      emit (add_transfer r transfer) begun,
      register_alone info known stub v incoming waits alone,
      unfold emit in begun_list,
      inl (unasked, alone_result),
    )
    | inr (alone, asked) ↦ (
      emit (add_transfer r transfer) (listed true),
      register_asked incoming alone,
      unfold emit in listed_list true,
      inr (asked, asked_result),
    )
  ]
