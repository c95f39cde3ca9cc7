-- ===== src/Receiver/Progress.antt =====
-- `getAbsolutePath`, `updatePaths`, `updateProgress` and `OnDone` of
-- src/service/transfer_manager_reactor.cpp: what receiving writes into the manager. `p` is the
-- operation, `r` its remote. The conversion from UTF-8, `GetFullName` and `Normalize` of `wxFileName`
-- are parameters; `none` of the last is a name that is not `IsOk`.
use winpinator.Prelude.{
  ℕ, zero, ◌+◌, ◌-◌, Bool, true, false, not, ◌&&◌, ◌||◌, List, [], ◌∷◌, ◌++◌, Text, text_eq, Option,
  none, some, ltb, ◌==◌, if◌then◌else◌,
}
use winpinator.Prelude.Int.{ℤ, pos, negsuc, ◌+ℤ◌}
use winpinator.Transfers.Types.{
  TransferOp, TransferElementType, TransferElement, regular_file_type, directory_type,
}
use winpinator.Transfers.State.{Env, Manager, set_op, send_status_update_notification}
use winpinator.Transfers.Register.{contains_char}
use winpinator.Transfers.Finish.{finish_transfer}
use winpinator.Sender.Executable.{is_prefix}
use winpinator.Sender.Files.{FileChunk, shows_progress, progress_freq_millis}

-- `wxString::Contains`
unfoldable pub contains : Text → Text → Bool
unfolding is_prefix
contains needle [] = is_prefix needle []
contains needle (c ∷ cs) = is_prefix needle (c ∷ cs) || contains needle cs

abbrev pub is_empty : Text → Bool
is_empty [] = true
is_empty (c ∷ cs) = false

unfoldable pub get_absolute_path : (Text → Text → Option Text) → Text → Text → Text
unfolding contains
get_absolute_path normalize output_path relative_path = elim (normalize relative_path output_path) [
  | none ↦ []
  | some full ↦ if not (contains output_path full) then [] else full
]

-- `elements.back().relativePath`, or the empty path
unfoldable pub last_path : List TransferElement → Text
last_path [] = []
last_path (e ∷ []) = e.relative_path
last_path (e ∷ f ∷ es) = last_path (f ∷ es)

-- Where the type is neither of the two, the code leaves the field unset.
unfoldable pub received_type : ℕ → TransferElementType
received_type n =
    if n == regular_file_type
    then TransferElementType.file
    else if n == directory_type
    then TransferElementType.folder
    else TransferElementType.unknown

-- The operation with a new element; only elements at the top level are counted.
unfoldable pub add_received : TransferElement → ℕ → TransferOp → TransferOp
add_received element file_type op =
    let listed = record op { elements = op.elements ++ element ∷ [] } in
    if contains_char b'/' element.relative_path then listed else record listed {
      file_count = if file_type == regular_file_type then op.file_count + 1 else op.file_count;
      dir_count = if file_type == directory_type then op.dir_count + 1 else op.dir_count;
    }

module _ (normalize : Text → Text → Option Text) (from_utf8 : Text → Text)
    (full_name_of : Text → Text) where
  abbrev pub received_element : Text → FileChunk → TransferElement
  unfolding received_type get_absolute_path
  received_element output_path chunk =
      let current_path = from_utf8 chunk.relative_path in
      let absolute_path = get_absolute_path normalize output_path current_path in
      record {
        element_type = received_type chunk.file_type;
        element_name = full_name_of absolute_path;
        relative_path = current_path;
        absolute_path = absolute_path;
      }

  unfoldable pub update_paths : ℕ → FileChunk → Manager → Manager
  unfolding set_op last_path add_received contains_char
  update_paths p chunk m =
      let op = m.ops p in
      let element = received_element m.output_path chunk in
      if contains_char b':' element.relative_path
      then m
      else if text_eq (last_path op.elements) element.relative_path
      then m
      else if is_empty element.absolute_path
      then m
      else set_op p (add_received element chunk.file_type op) m

-- `chunk_bytes` is -1 at the end of the call.
unfoldable pub add_progress : ℤ → TransferOp → TransferOp
add_progress chunk_bytes op = record op { sent_bytes = op.sent_bytes +ℤ chunk_bytes }

abbrev is_final : ℤ → Bool
is_final (negsuc zero) = true
is_final _ = false

unfoldable pub update_progress : Env → Text → ℕ → ℤ → Manager → Manager
unfolding set_op send_status_update_notification add_progress shows_progress
update_progress env r p chunk_bytes m =
    let counted = set_op p (add_progress chunk_bytes (m.ops p)) m in
    let op = counted.ops p in
    let due =
      ltb progress_freq_millis (env.monotonic_time - op.last_progress_update)
      || is_final chunk_bytes in
    if due && shows_progress op.status
    then set_op p (record op { last_progress_update = env.monotonic_time })
        (send_status_update_notification r p counted)
    else counted

-- `OnDone` up to its pause of a second, in which other events may come.
unfoldable pub on_done_begin : Env → Text → ℕ → Manager → Manager
unfolding set_op shows_progress
on_done_begin env r p m =
    let op = m.ops p in
    if shows_progress op.status
    then update_progress env r p (negsuc 0)
        (set_op p (record op { sent_bytes = op.total_size +ℤ pos 1 }) m)
    else m

-- The rest of it.
unfoldable pub on_done_end : Env → Text → ℕ → Manager → Manager
unfolding finish_transfer
on_done_end env r p m = finish_transfer env r (m.ops p).id m
