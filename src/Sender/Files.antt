-- ===== src/Sender/Files.antt =====
-- `transferFiles` of src/service/file_sender.cpp and what it calls.
-- `compress` of zlib, the conversion to UTF-8 and `GetFullName` are parameters. Other threads write
-- the status of the operation while it is sent: `moments` says which status and time the step after
-- `tick` others reads. A paused sender waits in `waitIfPaused`, which changes nothing here.
use winpinator.Prelude.{
  ℕ, zero, suc, ◌+◌, ◌-◌, Bool, true, false, ◌&&◌, ◌||◌, List, [], ◌∷◌, ◌++◌, map, Text, Option,
  none, some, ◌==◌, ltb, if◌then◌else◌, length, take, drop,
}
use winpinator.Prelude.Int.{ℤ, pos, negsuc, ◌+ℤ◌}
use winpinator.Permissions.{UnixPermissions, convert_to_decimal}
use winpinator.Transfers.Types.{
  OpStatus, TransferOp, TransferElementType, TransferElement, regular_file_type, directory_type,
}
use winpinator.Sender.Executable.{is_file_executable}

pub record FileChunk : Type 0 where
  pub relative_path : Text
  pub file_type : ℕ
  pub symlink_target : Text
  pub chunk : Text
  pub file_mode : ℕ

-- The disk: the bytes of a file that exists, whether it can be opened, and the directories. A file that
-- is open is read to its end, a whole block at a time; a `wxFile::Read` that fails or comes back
-- with less before the end is not modelled.
pub record Disk : Type 0 where
  pub content : Text → Option Text
  pub opens : Text → Bool
  pub dir_exists : Text → Bool

pub record Masks : Type 0 where
  pub file_perms : UnixPermissions
  pub exec_perms : UnixPermissions
  pub dir_perms : UnixPermissions
  pub compress_level : ℕ

pub record Moment : Type 0 where
  pub time : ℕ
  pub status : OpStatus

-- The operation, the chunks written, the calls of `onUpdate` and the moments passed.
pub record Sending : Type 0 where
  pub op : TransferOp
  pub written : List FileChunk
  pub updates : ℕ
  pub tick : ℕ

unfoldable pub is_stopped : OpStatus → Bool
is_stopped OpStatus.failed = true
is_stopped OpStatus.failed_unrecoverable = true
is_stopped OpStatus.stopped_by_receiver = true
is_stopped OpStatus.stopped_by_sender = true
is_stopped _ = false

unfoldable pub shows_progress : OpStatus → Bool
shows_progress OpStatus.transferring = true
shows_progress OpStatus.paused = true
shows_progress _ = false

abbrev pub progress_freq_millis : ℕ
progress_freq_millis = 250

unfoldable pub add_sent : ℤ → TransferOp → TransferOp
add_sent (pos n) op = record op { sent_bytes = op.sent_bytes +ℤ pos n }
add_sent (negsuc n) op = record op { sent_bytes = op.total_size }

abbrev pub is_last : ℤ → Bool
is_last (negsuc zero) = true
is_last _ = false

-- The last character of the root, which the code reads as `root[root.size() - 1]`.
abbrev pub ends_in_backslash : Text → Bool
ends_in_backslash [] = false
ends_in_backslash (c ∷ []) = c == b'\\'
ends_in_backslash (c ∷ d ∷ cs) = ends_in_backslash (d ∷ cs)

abbrev pub slashes : Text → Text
slashes path = map (λ c. if c == b'\\' then b'/' else c) path

-- The element that is recorded for a sent file or directory.
unfoldable pub sent_element : (Text → Text) → TransferElementType → Text → Text → TransferElement
sent_element full_name_of kind root path =
    let absolute = if ends_in_backslash root then root ++ path else root ++ b'\\' ∷ path in
    record {
      element_type = kind;
      element_name = full_name_of absolute;
      relative_path = slashes path;
      absolute_path = absolute;
    }

unfoldable pub add_element : TransferElement → Sending → Sending
add_element e s = record s { op = record s.op { elements = s.op.elements ++ e ∷ [] } }

unfoldable pub write : FileChunk → Sending → Sending
write c s = record s { written = s.written ++ c ∷ [] }

module _ (moments : ℕ → Moment) where
  unfoldable pub update_progress : ℤ → Sending → Sending
  unfolding add_sent shows_progress
  update_progress chunk_bytes s =
      let now = moments s.tick in
      let op = add_sent chunk_bytes s.op in
      let due =
        ltb progress_freq_millis (now.time - op.last_progress_update) || is_last chunk_bytes in
      if due && shows_progress now.status
      then record {
        op = record op { last_progress_update = now.time };
        written = s.written;
        updates = s.updates + 1;
        tick = s.tick + 1;
      }
      else record { op = op; written = s.written; updates = s.updates; tick = s.tick + 1 }

  module _ (disk : Disk) (masks : Masks) (compress : Text → ℕ → Text) (utf8 : Text → Text)
      (full_name_of : Text → Text) where
    unfoldable pub file_chunk : Text → UnixPermissions → Text → FileChunk
    file_chunk path permissions bytes = record {
      relative_path = utf8 (slashes path);
      file_type = regular_file_type;
      symlink_target = [];
      chunk = if ltb 0 masks.compress_level then compress bytes masks.compress_level else bytes;
      file_mode = convert_to_decimal permissions;
    }

    -- The `do` loop on what is left of the file; `none` when the fuel has run out.
    unfoldable pub send_chunks : ℕ → ℕ → Text → UnixPermissions → Text → Sending → Option Sending
    send_chunks zero block_size path permissions rest s = none
    send_chunks (suc fuel) block_size path permissions rest s =
        let bytes = take block_size rest in
        let sent = write (file_chunk path permissions bytes) s in
        let next =
          send_chunks fuel block_size path permissions (drop block_size rest)
            (update_progress (pos (length bytes)) sent) in
        if ltb 0 (length bytes) then next else some sent

    unfoldable pub file_permissions : ℕ → Text → Text → UnixPermissions
    file_permissions block_size path content =
        if is_file_executable (take block_size content) path
        then masks.exec_perms
        else masks.file_perms

    -- The sender after the file, and whether it could be opened; the fuel is one more than the
    -- length of the file.
    unfoldable pub send_single_file : ℕ → Text → Text → Text → Sending → Option (Bool × Sending)
    unfolding sent_element add_element
    send_single_file block_size root path content s =
        if disk.opens (root ++ b'\\' ∷ path)
        then elim (send_chunks (length content + 1) block_size path
            (file_permissions block_size path content) content s) [
              | none ↦ none
              | some sent ↦ some (
                true,
                add_element (sent_element full_name_of TransferElementType.file root path) sent,
              )
            ]
        else some (false, s)

    unfoldable pub send_single_directory : Text → Text → Sending → Sending
    unfolding sent_element add_element write
    send_single_directory root path s =
        write
          (record {
            relative_path = utf8 (slashes path);
            file_type = directory_type;
            symlink_target = [];
            chunk = [];
            file_mode = convert_to_decimal masks.dir_perms;
          })
          (add_element (sent_element full_name_of TransferElementType.folder root path) s)

    unfoldable pub send_single_entity : ℕ → Text → Text → Sending → Option (Bool × Sending)
    send_single_entity block_size root path s =
        let full_path = root ++ b'\\' ∷ path in
        elim (disk.content full_path) [
          | some content ↦ send_single_file block_size root path content s
          | none ↦
              if disk.dir_exists full_path
              then some (true, send_single_directory root path s)
              else some (false, s)
        ]

    -- The loop of `transferFiles`, with the reading of the status in `checkOpFailed`.
    unfoldable pub transfer_loop : ℕ → Text → List Text → Sending → Option (Bool × Sending)
    unfolding is_stopped
    transfer_loop block_size root [] s = some (true, update_progress (negsuc 0) s)
    transfer_loop block_size root (path ∷ paths) s =
        let checked = record s { tick = s.tick + 1 } in
        if is_stopped (moments s.tick).status
        then some (false, checked)
        else elim (send_single_entity block_size root path checked) [
          | none ↦ none
          | some (false, sent) ↦ some (false, sent)
          | some (true, sent) ↦ transfer_loop block_size root paths sent
        ]

    unfoldable pub transfer_files : ℕ → Sending → Option (Bool × Sending)
    unfolding transfer_loop
    transfer_files block_size s = transfer_loop block_size s.op.root_dir s.op.relative_paths s
