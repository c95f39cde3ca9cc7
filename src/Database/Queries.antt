-- ===== src/Database/Queries.antt =====
-- The queries of src/service/database_manager.cpp: `queryTransfers`, `queryTransferPaths` and `getTransfer`,
-- where SQLite answers each step with the next row and then with SQLITE_DONE. The identifiers of
-- the elements are left out. The query of the paths names no order, so the order in which SQLite gives
-- its rows is a parameter.
use winpinator.Prelude.{
  Bool, ◌&&◌, List, [], ◌∷◌, map, Text, text_eq, Option, none, some, ltb, if◌then◌else◌,
}
use winpinator.Transfers.Types.{TransferElement, Transfer}
use winpinator.Prelude.Int.{ℤ}
use winpinator.Database.Tables.{
  TransferRow, PathRow, Tables, c_string, to_int, id_is, same_int, read_element_type, read_status,
  read_type,
}
use winpinator.Database.History.{keep_rows}

pub record Stored : Type 0 where
  pub id : ℤ
  pub transfer : Transfer

unfoldable pub read_path : PathRow → TransferElement
unfolding read_element_type
read_path p = record {
  element_type = read_element_type p.element_type;
  element_name = p.element_name;
  relative_path = p.relative_path;
  absolute_path = p.absolute_path;
}

-- The order of the rows.
abbrev pub Arranging : Type 0
Arranging = List PathRow → List PathRow

unfoldable pub query_transfer_paths : Arranging → ℤ → Tables → List TransferElement
unfolding read_path keep_rows same_int
query_transfer_paths arrange id t =
    map read_path
      (arrange (keep_rows (λ (p : PathRow). same_int p.transfer_id id) t.transfer_paths))

unfoldable pub read_transfer : Arranging → Bool → Tables → TransferRow → Stored
unfolding read_status read_type query_transfer_paths to_int
read_transfer arrange query_paths t r = record {
  id = to_int r.id;
  transfer = record {
    target_id = r.target_id;
    single_element_name = r.single_name;
    transfer_type = read_type r.transfer_type;
    transfer_timestamp = r.transfer_timestamp;
    file_count = r.file_count;
    folder_count = r.folder_count;
    total_size_bytes = r.total_size_bytes;
    outgoing = r.outgoing;
    status = read_status r.status;
    elements = if query_paths then query_transfer_paths arrange (to_int r.id) t else [];
  };
}

-- `ORDER BY transfer_timestamp DESC`
unfoldable pub insert_row : TransferRow → List TransferRow → List TransferRow
insert_row r [] = r ∷ []
insert_row r (x ∷ xs) =
    let rest = insert_row r xs in
    if ltb r.transfer_timestamp x.transfer_timestamp then x ∷ rest else r ∷ x ∷ xs

unfoldable pub order_rows : List TransferRow → List TransferRow
unfolding insert_row
order_rows [] = []
order_rows (r ∷ rs) = insert_row r (order_rows rs)

-- The condition is a test of a row; without one, all rows pass.
unfoldable pub query_transfers :
    Arranging → Bool → Text → (TransferRow → Bool) → Bool → Tables → List Stored
unfolding keep_rows order_rows read_transfer c_string
query_transfers arrange query_paths target condition db_open t =
    if db_open
    then map (read_transfer arrange query_paths t) (
        order_rows (
          keep_rows (λ (r : TransferRow). condition r && text_eq r.target_id (c_string target))
            t.transfers))
    else []

-- `id` is -1 in the result where there is none.
unfoldable pub get_transfer : Arranging → ℤ → Text → Bool → Bool → Tables → Option Stored
unfolding query_transfers id_is
get_transfer arrange id target query_paths db_open t =
    elim (query_transfers arrange query_paths target (λ (r : TransferRow). id_is id r.id) db_open
      t) [ [] ↦ none | r ∷ rs ↦ some r ]
