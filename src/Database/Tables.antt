-- ===== src/Database/Tables.antt =====
-- The tables of src/service/database_manager.cpp and the rows that its queries read and write. Enumerations
-- are stored as integers.
use winpinator.Prelude.{
  ℕ, zero, suc, ◌%◌, ◌^◌, ◌-◌, [], ◌∷◌, ltb, ◌==◌, false, Bool, List, Text, if◌then◌else◌, ◌||◌,
}
use winpinator.Prelude.Int.{ℤ, pos, negsuc, ltb_ℤ}
use winpinator.Transfers.Types.{TransferElementType, TransferStatus, TransferType, TargetInfo}

-- A row of the table `transfers`.
pub record TransferRow : Type 0 where
  pub id : ℕ
  pub target_id : Text
  pub single_name : Text
  pub transfer_type : ℤ
  pub transfer_timestamp : ℕ
  pub file_count : ℕ
  pub folder_count : ℕ
  pub total_size_bytes : ℤ
  pub outgoing : Bool
  pub status : ℤ

-- A row of the table `transfer_paths`.
pub record PathRow : Type 0 where
  pub id : ℕ
  pub transfer_id : ℤ
  pub element_name : Text
  pub element_type : ℤ
  pub relative_path : Text
  pub absolute_path : Text

-- The tables, the newest row first, and the highest identifiers that the two counters have given.
pub record Tables : Type 0 where
  pub transfers : List TransferRow
  pub transfer_paths : List PathRow
  pub targets : List TargetInfo
  pub last_transfer : ℕ
  pub last_path : ℕ

-- What `c_str()` with a length of -1 binds: the text up to its first zero character.
unfoldable pub c_string : Text → Text
c_string [] = []
c_string (c ∷ cs) = let rest = c_string cs in if c == 0 then [] else c ∷ rest

-- The conversion of a row's identifier to `int`.
unfoldable pub to_int : ℕ → ℤ
to_int n = let m = n % 2 ^ 32 in if ltb m (2 ^ 31) then pos m else negsuc (2 ^ 32 - 1 - m)

-- The identifier of a row, compared with an `int`.
unfoldable pub id_is : ℤ → ℕ → Bool
id_is (pos n) id = id == n
id_is (negsuc n) id = false

unfoldable pub same_int : ℤ → ℤ → Bool
same_int (pos m) (pos n) = m == n
same_int (negsuc m) (negsuc n) = m == n
same_int _ _ = false

unfoldable pub element_code : TransferElementType → ℤ
element_code TransferElementType.file = pos 0
element_code TransferElementType.folder = pos 1
element_code TransferElementType.unknown = pos 2

unfoldable pub status_code : TransferStatus → ℤ
status_code TransferStatus.succeeded = pos 0
status_code TransferStatus.cancelled = pos 1
status_code TransferStatus.failed = pos 2
status_code TransferStatus.unknown = pos 3

unfoldable pub type_code : TransferType → ℤ
type_code TransferType.single_file = pos 0
type_code TransferType.multiple_files = pos 1
type_code TransferType.single_directory = pos 2
type_code TransferType.multiple_directories = pos 3
type_code TransferType.mixed = pos 4
type_code TransferType.unfinished_incoming = pos 5
type_code TransferType.unknown = pos 6

-- `fixEnum`: an integer outside the enumeration is its last value.
unfoldable pub fix_enum : ℤ → ℤ → ℤ
fix_enum val unk_val = if ltb_ℤ val (pos 0) || ltb_ℤ unk_val val then unk_val else val

-- The value that a fixed integer stands for.
abbrev pub element_of : ℤ → TransferElementType
element_of (pos zero) = TransferElementType.file
element_of (pos (suc zero)) = TransferElementType.folder
element_of _ = TransferElementType.unknown

abbrev pub status_of : ℤ → TransferStatus
status_of (pos zero) = TransferStatus.succeeded
status_of (pos (suc zero)) = TransferStatus.cancelled
status_of (pos (suc (suc zero))) = TransferStatus.failed
status_of _ = TransferStatus.unknown

abbrev pub type_of : ℤ → TransferType
type_of (pos zero) = TransferType.single_file
type_of (pos (suc zero)) = TransferType.multiple_files
type_of (pos (suc (suc zero))) = TransferType.single_directory
type_of (pos (suc (suc (suc zero)))) = TransferType.multiple_directories
type_of (pos (suc (suc (suc (suc zero))))) = TransferType.mixed
type_of (pos (suc (suc (suc (suc (suc zero)))))) = TransferType.unfinished_incoming
type_of _ = TransferType.unknown

unfoldable pub read_element_type : ℤ → TransferElementType
unfolding fix_enum
read_element_type n = element_of (fix_enum n (pos 2))

unfoldable pub read_status : ℤ → TransferStatus
unfolding fix_enum
read_status n = status_of (fix_enum n (pos 3))

unfoldable pub read_type : ℤ → TransferType
unfolding fix_enum
read_type n = type_of (fix_enum n (pos 6))
