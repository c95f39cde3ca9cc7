-- ===== src/Transfers/Types.antt =====
-- src/service/transfer_types.hpp, database_types.hpp, and the messages of proto/warp.proto that the
-- transfer manager sends.
-- An `int` or `time_t` that is never negative is a natural number; `totalSize` and `sentBytes` are
-- integers, since the program stores -1 in one and adds -1 to the other. Mutexes have no model:
-- each operation runs whole. A pause lock is its `value`.
use winpinator.Prelude.{ℕ, Bool, List, Text}
use winpinator.Prelude.Int.{ℤ}

pub data OpStatus : Type 0 where
  invalid_op init calculating waiting_permission : OpStatus
  cancelled_permission_by_sender cancelled_permission_by_receiver : OpStatus
  transferring paused stopped_by_sender stopped_by_receiver : OpStatus
  failed failed_unrecoverable file_not_found finished : OpStatus

-- The values of `enum class FileType` that a `FileChunk` carries.
abbrev pub regular_file_type : ℕ
regular_file_type = 1

abbrev pub directory_type : ℕ
directory_type = 2

pub data TransferElementType : Type 0 where
  file folder unknown : TransferElementType

pub record TransferElement : Type 0 where
  pub element_type : TransferElementType
  pub element_name : Text
  pub relative_path : Text
  pub absolute_path : Text

-- `TransferOp` with `TransferOpPub`, `meta` and `intern` flattened.
pub record TransferOp : Type 0 where
  pub id : ℕ
  pub outcoming : Bool
  pub start_time : ℕ
  pub sender_name : Text
  pub receiver : Text
  pub receiver_name : Text
  pub status : OpStatus
  pub total_size : ℤ
  pub total_count : ℕ
  pub mime_if_single : Text
  pub name_if_single : Text
  pub top_dir_basenames : List Text
  pub not_enough_space : Bool
  pub must_overwrite : Bool
  pub local_timestamp : ℕ
  pub sent_bytes : ℤ
  pub use_compression : Bool
  pub last_progress_update : ℕ
  pub pause_lock : Bool
  pub elements : List TransferElement
  pub remote_id : Text
  pub root_dir : Text
  pub relative_paths : List Text
  pub file_count : ℕ
  pub dir_count : ℕ
  pub crawl_job_id : ℕ

pub data TransferStatus : Type 0 where
  succeeded cancelled failed unknown : TransferStatus

pub data TransferType : Type 0 where
  single_file multiple_files single_directory multiple_directories : TransferType
  mixed unfinished_incoming unknown : TransferType

-- A row of the transfer history, `db::Transfer`.
pub record Transfer : Type 0 where
  pub target_id : Text
  pub single_element_name : Text
  pub transfer_type : TransferType
  pub transfer_timestamp : ℕ
  pub file_count : ℕ
  pub folder_count : ℕ
  pub total_size_bytes : ℤ
  pub outgoing : Bool
  pub status : TransferStatus
  pub elements : List TransferElement

pub record TargetInfo : Type 0 where
  pub target_id : Text
  pub full_name : Text
  pub hostname : Text
  pub ip : Text
  pub os : Text

pub record OpInfo : Type 0 where
  pub ident : Text
  pub timestamp : ℕ
  pub readable_name : Text
  pub use_compression : Bool

pub record TransferOpRequest : Type 0 where
  pub info : OpInfo
  pub sender_name : Text
  pub receiver_name : Text
  pub receiver : Text
  pub size : ℤ
  pub count : ℕ
  pub name_if_single : Text
  pub mime_if_single : Text
  pub top_dir_basenames : List Text

-- `CrawlerOutputData` of event.hpp.
pub record CrawlerOutputData : Type 0 where
  pub job_id : ℕ
  pub root_dir : Text
  pub paths : List Text
  pub top_dir_basenames : List Text
  pub total_size : ℤ
  pub folder_count : ℕ
  pub file_count : ℕ

-- What the manager tells others, in the order of the calls: its observers, the toast queue, the
-- database and the other host.
pub data Effect : Type 0 where
  add_transfer update_transfer : Text → TransferOp → Effect
  remove_transfer : Text → ℕ → Effect
  toast_accept : Text → TransferOp → Bool → Effect
  toast_failed toast_succeeded : Text → Text → Effect
  update_target : TargetInfo → Effect
  add_record : Transfer → Effect
  rpc_start_transfer : Text → OpInfo → Bool → Effect
  rpc_cancel_request : Text → OpInfo → Effect
  rpc_stop_transfer : Text → OpInfo → Bool → Effect
  rpc_process_request : Text → TransferOpRequest → Effect
