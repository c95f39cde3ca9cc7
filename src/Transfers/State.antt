-- ===== src/Transfers/State.antt =====
-- The state of `TransferManager` (src/service/transfer_manager.hpp), its look-ups, and what its
-- operations read of the rest of the world.
--
-- A `TransferOpPtr` is an address in `ops`: the list of a remote, the crawl jobs and a running
-- reactor may hold one address. `m_transfers` is a total function, where a remote without an entry
-- has the empty list: no operation tells the two apart. `none` as the result of an operation is a
-- null pointer that the code dereferences.
use winpinator.Prelude.{
  ℕ, Bool, List, [], ◌∷◌, Option, none, some, Text, text_eq, ◌==◌, ◌&&◌, if◌then◌else◌,
}
use winpinator.Crawler.Jobs.{Jobs}
use winpinator.Transfers.Types.{TransferOp, OpInfo, Effect, update_transfer}

-- What the manager sees of a `RemoteInfo`; `has_stub` says that its `stub` is set.
pub record Remote : Type 0 where
  pub full_name : Text
  pub hostname : Text
  pub ipv4 : Text
  pub os : Text
  pub has_stub : Bool

-- What one call reads of the system, of wxWidgets, of gRPC and of the other managers.
pub record Env : Type 0 where
  pub ident : Text
  pub own_hostname : Text
  pub user_full_name : Text
  pub time : ℕ
  pub monotonic_time : ℕ
  pub remote : Text → Option Remote
  pub free_space : ℕ
  -- `wxFileName( dir, name ).Exists()`
  pub exists : Text → Text → Bool
  pub dir_exists : Text → Bool
  pub file_exists : Text → Bool
  -- `wxFileName( path ).GetFullName()` and the mime type of its extension
  pub full_name_of : Text → Text
  pub mime_type_of : Text → Option Text
  -- `wxString::Format( "%d elements", n )`
  pub elements_label : ℕ → Text
  pub rpc_ok : Bool

pub record Manager : Type 0 where
  pub ops : ℕ → TransferOp
  pub next_op : ℕ
  pub transfers : Text → List ℕ
  pub crawl_jobs : ℕ → Option ℕ
  pub crawler : Jobs
  pub last_id : ℕ
  pub output_path : Text
  pub compression_level : ℕ
  pub must_allow_incoming : Bool
  pub must_allow_overwrite : Bool
  pub preserve_zone_info : Bool
  pub file_perms : ℕ
  pub exec_perms : ℕ
  pub dir_perms : ℕ
  -- newest first
  pub effects : List Effect

unfoldable pub emit : Effect → Manager → Manager
emit e m = record m { effects = e ∷ m.effects }

unfoldable pub set_op : ℕ → TransferOp → Manager → Manager
set_op p op m = record m { ops = λ q. if q == p then op else m.ops q }

unfoldable pub set_transfers : Text → List ℕ → Manager → Manager
set_transfers r ps m = record m { transfers = λ s. if text_eq s r then ps else m.transfers s }

unfoldable pub find_id : (ℕ → TransferOp) → ℕ → List ℕ → Option ℕ
find_id ops i [] = none
find_id ops i (p ∷ ps) = if (ops p).id == i then some p else find_id ops i ps

unfoldable pub find_timestamp : (ℕ → TransferOp) → ℕ → List ℕ → Option ℕ
find_timestamp ops t [] = none
find_timestamp ops t (p ∷ ps) = if (ops p).start_time == t then some p else find_timestamp ops t ps

unfoldable pub get_transfer_info : Text → ℕ → Manager → Option ℕ
get_transfer_info r transfer_id m = find_id m.ops transfer_id (m.transfers r)

unfoldable pub get_transfer_by_timestamp : Text → ℕ → Manager → Option ℕ
get_transfer_by_timestamp r timestamp m = find_timestamp m.ops timestamp (m.transfers r)

unfoldable pub get_transfers_for_remote : Text → Manager → List ℕ
get_transfers_for_remote r m = m.transfers r

-- `getOp`, a copy of the operation; the `invalid` one, whose id is -1, is `none`.
unfoldable pub get_op : Text → ℕ → Manager → Option TransferOp
get_op r timestamp m = elim (get_transfer_by_timestamp r timestamp m) [
  | none ↦ none
  | some p ↦ some (m.ops p)
]

unfoldable pub send_status_update_notification : Text → ℕ → Manager → Manager
unfolding emit
send_status_update_notification r p m = emit (update_transfer r (m.ops p)) m

unfoldable pub convert_op_to_op_info : Env → TransferOp → Bool → OpInfo
convert_op_to_op_info env op compression_enabled = record {
  ident = env.ident;
  timestamp = op.start_time;
  readable_name = env.own_hostname;
  use_compression = op.use_compression && compression_enabled;
}
