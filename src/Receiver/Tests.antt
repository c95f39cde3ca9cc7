-- ===== src/Receiver/Tests.antt =====
-- A disk in memory, and the script of the sender's tests received on it.
use winpinator.Prelude.{
  take-length, text_eq_ne, length-append, ◌<◌, ◌+◌, ◌≡◌, ◌≢◌, refl, sym, ap, ◌∙◌, inl, inr, Bool,
  true, false, not, List, [], ◌∷◌, ◌++◌, Text, codes, text_eq, text_eq_refl, Option, none, some,
  arith, length, Bool-cases, ◌&&◌, if◌then◌else◌,
}
use winpinator.Prelude.Int.{pos, ◌+ℤ◌}
use winpinator.Permissions.{initial}
use winpinator.Transfers.Types.{
  TransferOp, TransferStatus, Transfer, remove_transfer, toast_succeeded, add_record,
  update_transfer,
}
use winpinator.Transfers.State.{Env, Manager, get_transfer_info, find_id, set_op}
use winpinator.Transfers.Register.{contains_char}
use winpinator.Transfers.Settings.{new_manager}
use winpinator.Transfers.Finish.{store_target}
use winpinator.Sender.Files.{slashes, FileChunk, Sending, send_chunks, shows_progress}
use winpinator.Sender.Executable.{is_prefix}
use winpinator.Sender.Tests.{always, bytes, disk, masks, unpacked, same, sending, script}
use winpinator.Receiver.Disk.{zone_stream, FileSystem, IsLawful}
use winpinator.Receiver.Progress.{
  contains, get_absolute_path, is_empty, on_done_begin, on_done_end, update_paths, update_progress,
  last_path, add_received, received_type,
}
use winpinator.Receiver.Files.{
  Call, Receiving, receive, on_read_done, process_data, process_at, received_bytes, process_file,
  process_chunk,
}
use winpinator.Receiver.Exchange.{receive-send_chunks}
use winpinator.Receiver.Safety.{get_absolute_path-sibling}
use winpinator.Receiver.Confined.{IsOutside, receive-outside}
use winpinator.Receiver.Ending.{on_done-succeeded}

abbrev Files : Type 0
Files = Text → Option Text

abbrev is_there : Option Text → Bool
is_there none = false
is_there (some b) = true

abbrev append_to : Option Text → Text → Option Text
append_to none d = none
append_to (some b) d = some (b ++ d)

abbrev put : Text → Option Text → Files → Files
put p b s q = if text_eq q p then b else s q

abbrev create_in : Files → Text → Bool → Option Files
create_in s p overwrite = if not overwrite && is_there (s p) then none else some (put p (some []) s)

abbrev memory_disk : FileSystem
memory_disk = record {
  State = Files;
  content = λ s p. s p;
  dir_exists = λ s p. false;
  file_exists = λ s p. is_there (s p);
  same_file = λ p q. text_eq q p;
  create = create_in;
  write = λ s p d. put p (append_to (s p) d) s;
  written = λ s p d. length d;
  remove = λ s p. put p none s;
  mkdir = λ s p. some s;
}

put_same : (p : Text) (b : Option Text) (s : Files) → put p b s p ≡ b
put_same p b s = rw (text_eq_refl p) refl

put_other : (p q : Text) (b : Option Text) (s : Files) → text_eq q p ≡ false → put p b s q ≡ s q
put_other p q b s e = rw e refl

append-ne_self : (xs ys : Text) → 0 < length ys → xs ++ ys ≢ xs
append-ne_self xs ys h e = absurd (omega (arith, ap length e, length-append xs ys))

zone_other : (p : Text) → text_eq p (zone_stream p) ≡ false
zone_other p =
    text_eq_ne p (zone_stream p)
      (λ e. append-ne_self p (codes ":Zone.Identifier:$DATA") (omega arith) (sym e))

abbrev from_some : Files → Option Files → Files
from_some d none = d
from_some d (some a) = a

some_injective : (s t : Files) → Option.some s ≡ some t → t ≡ s
some_injective s t e = sym (ap (from_some s) e)

none_or : (t : Files) → Option.none ≡ some t → ⊥
none_or t e = cc

create_in-some :
    (s t : Files) (p : Text) (overwrite : Bool)
    → create_in s p overwrite ≡ some t
    → t ≡ put p (some []) s
create_in-some s t p overwrite e = elim (Bool-cases (not overwrite && is_there (s p))) [
  | inl h ↦ absurd (none_or t (rw h at e))
  | inr h ↦ some_injective (put p (some []) s) t (rw h at e)
]

memory_disk-IsLawful : IsLawful memory_disk
memory_disk-IsLawful = record {
  zone_apart = zone_other;
  content-create = λ s t p o e. ap (λ f. f p) (create_in-some s t p o e) ∙ put_same p (some []) s;
  content-create_other =
      λ s t p q o e ne. ap (λ f. f q) (create_in-some s t p o e) ∙ put_other p q (some []) s ne;
  content-write = λ s p b d e.
      put_same p _ s ∙ ap (λ c. append_to c d) e ∙ sym (ap (λ x. some (b ++ x)) (take-length d));
  content-write_other = λ s p q d ne. put_other p q _ s ne;
  content-remove_other = λ s p q ne. put_other p q none s ne;
  content-mkdir = λ s t p q e. ap (λ f. f q) (some_injective s t e);
}

abbrev output : Text
output = codes "C:\\out"

abbrev under : Text → Text → Option Text
under path out = some (out ++ codes "\\" ++ path)

abbrev manager : Manager
manager = record (new_manager (λ p. sending.op)) {
  output_path = output;
  transfers = λ r. 0 ∷ [];
  next_op = 1;
}

abbrev env : Env
env = record {
  ident = codes "self";
  own_hostname = codes "self-host";
  user_full_name = codes "Own User";
  time = 1700;
  monotonic_time = 40;
  remote = λ r. none;
  free_space = 1000;
  exists = λ dir name. false;
  dir_exists = λ path. false;
  file_exists = λ path. true;
  full_name_of = λ path. path;
  mime_type_of = λ path. none;
  elements_label = λ n. codes "elements";
  rpc_ok = true;
}

abbrev call : Call
call = record { remote_id = codes "peer"; op = 0; use_compression = false; can_overwrite = false }

abbrev receiving : Receiving memory_disk
receiving = record {
  manager = manager;
  disk = λ p. none;
  handle = record { file_ptr_path = []; open_file = none };
}

abbrev target : Text
target = output ++ codes "\\" ++ script

abbrev created : Files
created = put target (some []) (λ p. none)

target_eq : get_absolute_path under manager.output_path (same (same (slashes script))) ≡ target
unfolding get_absolute_path contains is_prefix new_manager
target_eq = refl

target_inside : is_empty target ≡ false
target_inside = refl

name_new : text_eq (same (slashes script)) [] ≡ false
unfolding text_eq
name_new = refl

abbrev elsewhere : Text
elsewhere = codes "C:\\secret"

elsewhere_other : text_eq elsewhere target ≡ false
unfolding text_eq
elsewhere_other = refl

elsewhere_other_zone : text_eq elsewhere (zone_stream target) ≡ false
unfolding text_eq
elsewhere_other_zone = refl

on_done_target : get_transfer_info (codes "peer") (manager.ops 0).id manager ≡ some 0
unfolding get_transfer_info find_id new_manager
on_done_target = refl

running : shows_progress (manager.ops 0).status ≡ true
unfolding shows_progress new_manager
running = refl

receive-send_chunks_example :
    (n : Sending) × (cs : List FileChunk) × (t : Receiving memory_disk) × (send_chunks always disk
        masks unpacked same same
        (length bytes + 1)
        2
        script
        initial
        bytes
        sending
      ≡ some n)
    × (n.written ≡ sending.written ++ cs)
    × (receive memory_disk under same same same (λ i. env) 0 call cs receiving ≡ some t)
    × (t.disk target ≡ some bytes)
    × (t.disk elsewhere ≡ none)
    × ((t.manager.ops 0).sent_bytes ≡ (manager.ops 0).sent_bytes +ℤ pos (length bytes))
receive-send_chunks_example =
    receive-send_chunks always disk masks unpacked same same 2 script initial refl (omega arith)
      memory_disk memory_disk-IsLawful (λ d p b. refl) under same same same call refl bytes target
      sending (λ i. env) 0 receiving created target_eq target_inside name_new refl elsewhere
      elsewhere_other elsewhere_other_zone

abbrev climb : Text
climb = codes "..\\out2\\a.txt"

-- What normalising makes of that one name.
abbrev resolved : Text → Text → Option Text
resolved path out = if text_eq path climb then some (codes "C:\\out2\\a.txt") else under path out

climb-resolved : resolved climb output ≡ some (output ++ codes "2\\a.txt")
unfolding text_eq
climb-resolved = refl

get_absolute_path-sibling_example :
    get_absolute_path resolved output climb ≡ output ++ codes "2\\a.txt"
get_absolute_path-sibling_example =
    get_absolute_path-sibling resolved output (codes "2\\a.txt") climb climb-resolved

-- One chunk of a file.
abbrev stray : FileChunk
stray = record {
  relative_path = codes "a.txt";
  file_type = 1;
  symlink_target = [];
  chunk = bytes;
  file_mode = 0;
}

abbrev or_receiving : Option (Receiving memory_disk) → Receiving memory_disk
or_receiving none = receiving
or_receiving (some t) = t

abbrev received : Receiving memory_disk
received =
    or_receiving (receive memory_disk under same same same (λ i. env) 0 call (stray ∷ []) receiving)

received_run :
    receive memory_disk under same same same (λ i. env) 0 call (stray ∷ []) receiving
    ≡ some received
unfolding receive on_read_done process_data process_at update_paths update_progress received_bytes
    process_file process_chunk new_manager get_absolute_path contains is_prefix text_eq last_path
    add_received contains_char received_type set_op
received_run = refl

elsewhere_apart : contains output elsewhere ≡ false
unfolding contains is_prefix
elsewhere_apart = refl

bool_clash : true ≡ false → ⊥
bool_clash e = cc

elsewhere-IsOutside : IsOutside memory_disk output elsewhere
elsewhere-IsOutside p h =
    text_eq_ne elsewhere p
      (λ e. bool_clash (sym h ∙ sym (ap (contains output) e) ∙ elsewhere_apart))

receive-outside_example : received.disk elsewhere ≡ none
receive-outside_example =
    receive-outside memory_disk memory_disk-IsLawful under same same same call output (λ i. env) 0
      (stray ∷ []) receiving received refl tt received_run elsewhere elsewhere-IsOutside

on_done-succeeded_example :
    (told : TransferOp) × (row : Transfer) × (name : Text) × ((on_done_end env
        (codes "peer")
        0
        (on_done_begin env (codes "peer") 0 manager)).effects
      ≡ remove_transfer (codes "peer") 0
        ∷ toast_succeeded (codes "peer") name
        ∷ add_record row
        ∷ store_target env (codes "peer") (update_transfer (codes "peer") told ∷ manager.effects))
    × (told.sent_bytes ≡ pos 3)
    × (row.status ≡ TransferStatus.succeeded)
    × (row.total_size_bytes ≡ pos 3)
unfolding new_manager
on_done-succeeded_example =
    on_done-succeeded env env (codes "peer") 0 manager on_done_target running
