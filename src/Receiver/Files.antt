-- ===== src/Receiver/Files.antt =====
-- `processData` and `OnReadDone` of src/service/transfer_manager_reactor.cpp.
use winpinator.Prelude.{
  ℕ, suc, Bool, true, List, [], ◌∷◌, Text, codes, text_eq, Option, none, some, length, ◌==◌,
  if◌then◌else◌,
}
use winpinator.Prelude.Int.{pos}
use winpinator.Transfers.Types.{regular_file_type, directory_type}
use winpinator.Transfers.State.{Env, Manager}
use winpinator.Transfers.Control.{request_stop_transfer}
use winpinator.Sender.Files.{FileChunk}
use winpinator.Receiver.Disk.{FileSystem, zone_stream}
use winpinator.Receiver.Progress.{get_absolute_path, is_empty, update_paths, update_progress}

-- The reactor's own fields: `m_filePtrPath`, and the absolute path of `m_filePtr` while it is open.
pub record Handle : Type 0 where
  pub file_ptr_path : Text
  pub open_file : Option Text

-- What `m_transfer`, the request and the manager fix for the whole call.
pub record Call : Type 0 where
  pub remote_id : Text
  pub op : ℕ
  pub use_compression : Bool
  pub can_overwrite : Bool

abbrev pub zone_content : Text
zone_content = codes "[ZoneTransfer]\nZoneId=1\n"

module _ (fs : FileSystem) where
  -- The manager, the disk and the reactor.
  pub record Receiving : Type 0 where
    pub manager : Manager
    pub disk : fs.State
    pub handle : Handle

  -- A stream that cannot be created is left out.
  unfoldable pub write_zone_stream : Text → fs.State → fs.State
  write_zone_stream path disk = elim (fs.create disk (zone_stream path) true) [
    | none ↦ disk
    | some created ↦ fs.write created (zone_stream path) zone_content
  ]

  -- `m_filePtr.Write`; writing to a file that is not open does nothing.
  unfoldable pub write_open : Option Text → Text → fs.State → fs.State
  write_open none bytes disk = disk
  write_open (some path) bytes disk = fs.write disk path bytes

  unfoldable pub fail_op : Env → Call → Receiving → Option Receiving
  unfolding request_stop_transfer
  fail_op env call s =
      elim (request_stop_transfer env call.remote_id (s.manager.ops call.op).id true s.manager) [
        | none ↦ none
        | some m ↦ some (record s { manager = m })
      ]

  -- A chunk of a regular file.
  unfoldable pub process_file : Env → Call → Text → Text → Text → Receiving → Option Receiving
  unfolding write_zone_stream write_open
  process_file env call relative_path absolute_path bytes s =
      let moved : Handle = record { file_ptr_path = relative_path; open_file = none } in
      let opened : Handle = record {
        file_ptr_path = relative_path;
        open_file = some absolute_path;
      } in
      if text_eq relative_path s.handle.file_ptr_path
      then some (record s { disk = write_open s.handle.open_file bytes s.disk })
      else elim (fs.create s.disk absolute_path call.can_overwrite) [
        | none ↦ fail_op env call (record s { handle = moved })
        | some created ↦
            let zoned =
              if s.manager.preserve_zone_info
              then write_zone_stream absolute_path created
              else created in
            some (record s { disk = fs.write zoned absolute_path bytes; handle = opened })
      ]

  unfoldable pub process_directory : Env → Call → Text → Receiving → Option Receiving
  process_directory env call absolute_path s =
      let cleared =
        if fs.file_exists s.disk absolute_path then fs.remove s.disk absolute_path else s.disk in
      if fs.dir_exists s.disk absolute_path then some s else elim (fs.mkdir cleared absolute_path) [
        | none ↦ fail_op env call (record s { disk = cleared })
        | some made ↦ some (record s { disk = made })
      ]

  -- `processData` once the absolute path is known.
  unfoldable pub process_at : Env → Call → FileChunk → Text → Text → Receiving → Option Receiving
  unfolding process_file process_directory
  process_at env call chunk absolute_path bytes s =
      if is_empty absolute_path
      then some s
      else if chunk.file_type == regular_file_type
      then process_file env call chunk.relative_path absolute_path bytes s
      else if chunk.file_type == directory_type
      then process_directory env call absolute_path s
      else some s

  module _ (normalize : Text → Text → Option Text) (from_utf8 : Text → Text)
      (full_name_of : Text → Text) (decompress : Text → Text) where
    unfoldable pub process_data : Env → Call → FileChunk → Text → Receiving → Option Receiving
    process_data env call chunk bytes s =
        process_at env call chunk
          (get_absolute_path normalize s.manager.output_path (from_utf8 chunk.relative_path)) bytes
          s

    unfoldable pub received_bytes : Bool → Text → Text
    received_bytes use_compression original =
        if use_compression then decompress original else original

    -- `OnReadDone` of a chunk that has been read, once it is decompressed.
    unfoldable pub process_chunk : Env → Call → FileChunk → Text → Receiving → Option Receiving
    process_chunk env call chunk bytes s =
        let listed = update_paths normalize from_utf8 full_name_of call.op chunk s.manager in
        let counted = update_progress env call.remote_id call.op (pos (length bytes)) listed in
        process_data env call chunk bytes (record s { manager = counted })

    unfoldable pub on_read_done : Env → Call → FileChunk → Receiving → Option Receiving
    unfolding received_bytes process_chunk
    on_read_done env call chunk s =
        process_chunk env call chunk (received_bytes call.use_compression chunk.chunk) s

    -- The chunks of a call in their order; the environment of each is that of its place.
    unfoldable pub receive : (ℕ → Env) → ℕ → Call → List FileChunk → Receiving → Option Receiving
    unfolding on_read_done
    receive envs i call [] s = some s
    receive envs i call (c ∷ cs) s = elim (on_read_done (envs i) call c s) [
      | none ↦ none
      | some next ↦ receive envs (suc i) call cs next
    ]
