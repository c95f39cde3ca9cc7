-- ===== src/Transfers/Pausing.antt =====
-- Pausing and resuming a transfer, and what stopping a paused one leaves behind.
use winpinator.Prelude.{ℕ, ◌≡◌, refl, sym, ap, ◌∙◌, Bool, true, false, ◌∷◌, Text, some, arith}
use winpinator.Transfers.Types.{OpStatus, TransferOp, update_transfer}
use winpinator.Transfers.State.{
  Manager, emit, set_op, get_transfer_info, send_status_update_notification,
}
use winpinator.Transfers.Control.{
  set_status, set_pause_lock, is_paused, is_transferring, pause_transfer, resume_transfer,
}
use winpinator.Transfers.Lookup.{find_id_congr}

-- Both operations write the status and the lock of one operation and tell the observers.
abbrev switched : Text → ℕ → OpStatus → Bool → Manager → Manager
switched r p status lock m =
    send_status_update_notification r p (set_status p status (set_pause_lock p lock m))

abbrev switched_op : OpStatus → Bool → TransferOp → TransferOp
switched_op status lock op = record op { status = status; pause_lock = lock }

switched-op :
    (r : Text) (p : ℕ) (status : OpStatus) (lock : Bool) (m : Manager)
    → (switched r p status lock m).ops p ≡ switched_op status lock (m.ops p)
unfolding set_status set_pause_lock send_status_update_notification set_op emit
switched-op r p status lock m = ground arith

switched-effects :
    (r : Text) (p : ℕ) (status : OpStatus) (lock : Bool) (m : Manager)
    → (switched r p status lock m).effects
      ≡ update_transfer r ((switched r p status lock m).ops p) ∷ m.effects
unfolding set_status set_pause_lock send_status_update_notification set_op emit
switched-effects r p status lock m = refl

switched-transfers :
    (r : Text) (p : ℕ) (status : OpStatus) (lock : Bool) (m : Manager)
    → (switched r p status lock m).transfers ≡ m.transfers
unfolding set_status set_pause_lock send_status_update_notification set_op emit
switched-transfers r p status lock m = refl

switched-found :
    (r : Text) (i p : ℕ) (status : OpStatus) (lock : Bool) (m : Manager)
    → get_transfer_info r i (switched r p status lock m) ≡ get_transfer_info r i m
unfolding get_transfer_info set_status set_pause_lock send_status_update_notification set_op emit
switched-found r i p status lock m =
    find_id_congr m.ops (switched r p status lock m).ops (λ q. ground arith) i (m.transfers r)

module _ (r : Text) (i p : ℕ) (m : Manager) (found : get_transfer_info r i m ≡ some p) where
  pause_eq :
      is_transferring (m.ops p).status ≡ true
      → pause_transfer r i m ≡ switched r p OpStatus.paused true m
  pause_eq t = unfold pause_transfer in rw (found, pause_transfer) (rw t refl)

  resume_eq :
      is_paused (m.ops p).status ≡ true
      → resume_transfer r i m ≡ some (switched r p OpStatus.transferring false m)
  resume_eq t = unfold resume_transfer in rw (found, resume_transfer) (rw t refl)

module _ (r : Text) (i p : ℕ) (m : Manager) (found : get_transfer_info r i m ≡ some p) where
  -- Pausing a transfer that runs and resuming it succeeds and leaves its operation, the lock its
  -- worker waits on included, and all lists as they were; the observers are told of the paused
  -- operation and then of the running one.
  pub resume-pause :
      (m.ops p).status ≡ OpStatus.transferring
      → (m.ops p).pause_lock ≡ false
      → (n : Manager) × (resume_transfer r i (pause_transfer r i m) ≡ some n)
        × (n.ops p ≡ m.ops p)
        × (n.transfers ≡ m.transfers)
        × (n.effects
            ≡ update_transfer r (m.ops p)
              ∷ update_transfer r (switched_op OpStatus.paused true (m.ops p))
              ∷ m.effects)
  resume-pause s lock = (n, returns, same_op, same_lists, told)
    where
      halted : Manager
      halted = switched r p OpStatus.paused true m

      n : Manager
      n = switched r p OpStatus.transferring false halted

      halted_op : halted.ops p ≡ switched_op OpStatus.paused true (m.ops p)
      halted_op = switched-op r p OpStatus.paused true m

      halted_paused : is_paused (halted.ops p).status ≡ true
      halted_paused = unfold is_paused in ap (λ o. is_paused o.status) halted_op

      runs : is_transferring (m.ops p).status ≡ true
      runs = unfold is_transferring in ap is_transferring s

      halted_found : get_transfer_info r i halted ≡ some p
      halted_found = switched-found r i p OpStatus.paused true m ∙ found

      returns : resume_transfer r i (pause_transfer r i m) ≡ some n
      returns =
          ap (resume_transfer r i) (pause_eq r i p m found runs)
          ∙ resume_eq r i p halted halted_found halted_paused

      back :
          switched_op OpStatus.transferring false (switched_op OpStatus.paused true (m.ops p))
          ≡ m.ops p
      back = λ j. record (m.ops p) { status = sym s j; pause_lock = sym lock j }

      same_op : n.ops p ≡ m.ops p
      same_op =
          switched-op r p OpStatus.transferring false halted
          ∙ ap (switched_op OpStatus.transferring false) halted_op
          ∙ back

      same_lists : n.transfers ≡ m.transfers
      same_lists =
          switched-transfers r p OpStatus.transferring false halted
          ∙ switched-transfers r p OpStatus.paused true m

      told :
          n.effects
          ≡ update_transfer r (m.ops p)
            ∷ update_transfer r (switched_op OpStatus.paused true (m.ops p))
            ∷ m.effects
      told =
          switched-effects r p OpStatus.transferring false halted
          ∙ rw (same_op) (
              ap (λ es. update_transfer r (m.ops p) ∷ es)
                (switched-effects r p OpStatus.paused true m
                  ∙ ap (λ o. update_transfer r o ∷ m.effects) halted_op))
