-- ===== src/Transfers/Records.antt =====
-- What the history says of a finished transfer: `getOpType`, `getOpStatus` and the record of
-- `doFinishTransfer`.
use winpinator.Prelude.{
  ℕ, ◌<◌, ◌≡◌, ◌≢◌, ◌↔◌, ◌⊎◌, refl, true, false, ◌∷◌, Text, text_eq, some, Listed, length, arith,
  if◌then◌else◌,
}
use winpinator.Transfers.Types.{
  OpStatus, TransferOp, TransferStatus, TransferType, toast_succeeded, add_record, remove_transfer,
}
use winpinator.Transfers.State.{Env, Manager, get_transfer_info}
use winpinator.Transfers.Finish.{
  get_op_status, get_op_type, make_record, store_target, is_succeeded, finish_op,
  do_finish_transfer, finish_transfer, directory_mime_type,
}
use winpinator.Transfers.Lookup.{find_id-Listed}
use winpinator.Transfers.Invariant.{
  IsActive, IsValid, is_calculating, is_waiting, is_transferring, is_paused,
}

-- The type of a record says what it held: one file, or nothing that was counted; several files;
-- one directory; several directories; or both kinds, and it is never one of the two other types.
pub get_op_type_iff :
    (files dirs : ℕ)
    → let t = get_op_type files dirs in
      ((t ≡ TransferType.single_file) ↔ ((files ≡ 1) × (dirs ≡ 0)) ⊎ ((files ≡ 0) × (dirs ≡ 0)))
      × ((t ≡ TransferType.multiple_files) ↔ (1 < files) × (dirs ≡ 0))
      × ((t ≡ TransferType.single_directory) ↔ (files ≡ 0) × (dirs ≡ 1))
      × ((t ≡ TransferType.multiple_directories) ↔ (files ≡ 0) × (1 < dirs))
      × ((t ≡ TransferType.mixed) ↔ (0 < files) × (0 < dirs))
unfolding get_op_type
get_op_type_iff files dirs = (
  (ground arith, ground arith),
  (ground arith, ground arith),
  (ground arith, ground arith),
  (ground arith, ground arith),
  (ground arith, ground arith),
)

active_succeeded : (s : OpStatus) → IsActive s → get_op_status s ≡ TransferStatus.succeeded
unfolding get_op_status
active_succeeded _ is_calculating = refl
active_succeeded _ is_waiting = refl
active_succeeded _ is_transferring = refl
active_succeeded _ is_paused = refl

active_record_status :
    (r : Text) (op : TransferOp)
    → IsActive op.status
    → (make_record r op).status ≡ TransferStatus.succeeded
unfolding make_record
active_record_status r op a = active_succeeded op.status a

-- An incoming transfer that did not succeed is recorded as unfinished, with the names that were
-- offered counted as directories or as files by the offered type, whatever had arrived. Any other
-- record has the counts of the operation and the type that they give.
pub make_record_counts :
    (r : Text) (op : TransferOp)
    → let row = make_record r op in
      let directory = text_eq op.mime_if_single directory_mime_type in
      ((op.outcoming ≡ false)
        × (row.status ≢ TransferStatus.succeeded)
        × (row.transfer_type ≡ TransferType.unfinished_incoming)
        × (row.file_count ≡ (if directory then 0 else length op.top_dir_basenames))
        × (row.folder_count ≡ (if directory then length op.top_dir_basenames else 0)))
      ⊎ (((op.outcoming ≡ true) ⊎ (row.status ≡ TransferStatus.succeeded))
          × (row.transfer_type ≡ get_op_type op.file_count op.dir_count)
          × (row.file_count ≡ op.file_count)
          × (row.folder_count ≡ op.dir_count))
unfolding make_record
make_record_counts r op = ground arith

found-Listed :
    (r : Text) (i p : ℕ) (m : Manager) → get_transfer_info r i m ≡ some p → Listed p (m.transfers r)
unfolding get_transfer_info
found-Listed r i p m e = find_id-Listed m.ops i p (m.transfers r) e

finish_op_effects :
    (env : Env) (r : Text) (i p : ℕ) (m : Manager)
    → IsValid m
    → Listed p (m.transfers r)
    → (finish_op env r i p m).effects
      ≡ remove_transfer r i
        ∷ toast_succeeded r
            (if (m.ops p).outcoming then (m.ops p).receiver_name else (m.ops p).sender_name)
        ∷ add_record (make_record r (m.ops p))
        ∷ store_target env r m.effects
unfolding finish_op is_succeeded
finish_op_effects env r i p m v l = simp (active_record_status r (m.ops p) (v.active r p l))

-- When the receiving call ends while the operation is still listed, as it is after a lost
-- connection too, the transfer is recorded as succeeded and the user is told so: the end of the
-- call does not look at how it ended.
pub finish_transfer-succeeded :
    (env : Env) (r : Text) (i p : ℕ) (m : Manager)
    → IsValid m
    → get_transfer_info r i m ≡ some p
    → let op = m.ops p in
      ((make_record r op).status ≡ TransferStatus.succeeded)
      × ((finish_transfer env r i m).effects
          ≡ remove_transfer r i
            ∷ toast_succeeded r (if op.outcoming then op.receiver_name else op.sender_name)
            ∷ add_record (make_record r op)
            ∷ store_target env r m.effects)
unfolding finish_transfer
finish_transfer-succeeded env r i p m v e = (
  active_record_status r (m.ops p) (v.active r p (found-Listed r i p m e)),
  rw (e, do_finish_transfer) (finish_op_effects env r i p m v (found-Listed r i p m e)),
)
