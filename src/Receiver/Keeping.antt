-- ===== src/Receiver/Keeping.antt =====
-- What a receiver writes into the manager (src/service/transfer_manager_reactor.cpp) keeps its invariant.
use winpinator.Prelude.{
  ℕ, ◌≡◌, refl, inl, inr, Bool, true, false, Text, text_eq, Option, arith, if◌then◌else◌,
  Bool-cases,
}
use winpinator.Prelude.Int.{ℤ, negsuc, pos, ◌+ℤ◌}
use winpinator.Transfers.Types.{TransferOp, TransferElement}
use winpinator.Transfers.State.{Env, Manager, set_op, send_status_update_notification}
use winpinator.Transfers.Register.{contains_char}
use winpinator.Transfers.Invariant.{IsActive}
use winpinator.Transfers.Invariant.Keeps.{Keeps, Keeps-refl, Keeps-trans, emit-Keeps, set_op-Keeps}
use winpinator.Sender.Files.{FileChunk, shows_progress}
use winpinator.Receiver.Progress.{
  last_path, is_empty, received_element, add_received, update_paths, add_progress, update_progress,
  on_done_begin,
}

if-Keeps : (b : Bool) (m n o : Manager) → Keeps m n → Keeps m o → Keeps m (if b then n else o)
if-Keeps true m n o h k = h
if-Keeps false m n o h k = k

module _ (element : TransferElement) (file_type : ℕ) (op : TransferOp) where
  add_received-id : (add_received element file_type op).id ≡ op.id
  unfolding add_received
  add_received-id = ground arith

  add_received-remote_id : op.remote_id ≡ (add_received element file_type op).remote_id
  unfolding add_received
  add_received-remote_id = ground arith

  add_received-active : IsActive op.status → IsActive (add_received element file_type op).status
  unfolding add_received
  add_received-active h = elim (Bool-cases (contains_char b'/' element.relative_path)) [
    | inl e ↦ rw e h
    | inr e ↦ rw e h
  ]

pub update_paths-Keeps :
    (normalize : Text → Text → Option Text) (from_utf8 full_name_of : Text → Text) (p : ℕ)
    (chunk : FileChunk) (m : Manager)
    → Keeps m (update_paths normalize from_utf8 full_name_of p chunk m)
unfolding update_paths
update_paths-Keeps normalize from_utf8 full_name_of p chunk m =
    let element = received_element normalize from_utf8 full_name_of m.output_path chunk in
    let op = add_received element chunk.file_type (m.ops p) in
    let set = set_op p op m in
    if-Keeps (contains_char b':' element.relative_path) m m _ (Keeps-refl m) (
      if-Keeps (text_eq (last_path (m.ops p).elements) element.relative_path) m m _ (Keeps-refl m) (
        if-Keeps (is_empty element.absolute_path) m m set (Keeps-refl m) (
          set_op-Keeps p op m (add_received-id element chunk.file_type (m.ops p))
            (add_received-remote_id element chunk.file_type (m.ops p))
            (add_received-active element chunk.file_type (m.ops p)))))

pub update_progress-Keeps :
    (env : Env) (r : Text) (p : ℕ) (z : ℤ) (m : Manager) → Keeps m (update_progress env r p z m)
unfolding update_progress
update_progress-Keeps env r p z m =
    let counted = set_op p (add_progress z (m.ops p)) m in
    let told = send_status_update_notification r p counted in
    let counts : Keeps m counted = set_op-Keeps p (add_progress z (m.ops p)) m refl refl (λ a. a) in
    if-Keeps _ m _ counted
      (Keeps-trans m counted _ counts (
        Keeps-trans counted told _ (emit-Keeps _ counted)
          (set_op-Keeps p _ told refl refl (λ a. a))))
      counts

pub on_done_begin-Keeps :
    (env : Env) (r : Text) (p : ℕ) (m : Manager) → Keeps m (on_done_begin env r p m)
unfolding on_done_begin
on_done_begin-Keeps env r p m =
    let set = set_op p (record (m.ops p) { sent_bytes = (m.ops p).total_size +ℤ pos 1 }) m in
    if-Keeps (shows_progress (m.ops p).status) m _ m
      (Keeps-trans m set _ (set_op-Keeps p _ m refl refl (λ a. a))
        (update_progress-Keeps env r p (negsuc 0) set))
      (Keeps-refl m)
