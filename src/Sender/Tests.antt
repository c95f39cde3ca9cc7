-- ===== src/Sender/Tests.antt =====
-- A short name, a script, and a file of three bytes in chunks of two.
use winpinator.Prelude.{
  ℕ, ◌+◌, ◌≡◌, ◌≢◌, ◌↔◌, ◌⊎◌, refl, true, false, [], ◌∷◌, ◌++◌, Text, codes, some, length, arith,
}
use winpinator.Prelude.Int.{pos}
use winpinator.Permissions.{initial, check_elf_header}
use winpinator.Transfers.Types.{OpStatus}
use winpinator.Sender.Executable.{is_file_executable, is_file_executable_iff}
use winpinator.Sender.Files.{slashes, Disk, Masks, Moment, Sending, send_chunks}
use winpinator.Sender.Laws.{SentBytes, send_chunks-SentBytes}

abbrev pub no_bytes : Text
no_bytes = []

abbrev pub script : Text
script = codes "run.py"

script_size : length script ≢ 1
script_size h = ground arith

is_file_executable_iff_example :
    (is_file_executable no_bytes script ≡ true)
    ↔ ((stem : Text) × (script ≡ stem ++ codes "py"))
      ⊎ (((stem : Text) × (script ≡ stem ++ codes "sh"))
          ⊎ (check_elf_header no_bytes (length no_bytes) ≡ true))
is_file_executable_iff_example = is_file_executable_iff no_bytes script (omega arith) script_size

abbrev pub always : ℕ → Moment
always i = record { time = 300 + i; status = OpStatus.transferring }

abbrev pub bytes : Text
bytes = 1 ∷ 2 ∷ 3 ∷ []

abbrev pub disk : Disk
disk = record { content = λ path. some bytes; opens = λ path. true; dir_exists = λ path. false }

abbrev pub masks : Masks
masks = record {
  file_perms = initial;
  exec_perms = initial;
  dir_perms = initial;
  compress_level = 0;
}

abbrev pub unpacked : Text → ℕ → Text
unpacked t level = t

abbrev pub same : Text → Text
same t = t

abbrev pub sending : Sending
sending = record {
  op = record {
    id = 0;
    outcoming = true;
    start_time = 1;
    sender_name = [];
    receiver = [];
    receiver_name = [];
    status = OpStatus.transferring;
    total_size = pos 3;
    total_count = 1;
    mime_if_single = [];
    name_if_single = [];
    top_dir_basenames = [];
    not_enough_space = false;
    must_overwrite = false;
    local_timestamp = 0;
    sent_bytes = pos 0;
    use_compression = false;
    last_progress_update = 0;
    pause_lock = false;
    elements = [];
    remote_id = [];
    root_dir = codes "C:";
    relative_paths = script ∷ [];
    file_count = 1;
    dir_count = 0;
    crawl_job_id = 0;
  };
  written = [];
  updates = 0;
  tick = 0;
}

send_chunks-SentBytes_example :
    (n : Sending) × (send_chunks always disk masks unpacked same same 4 2 script initial bytes
        sending
      ≡ some n)
    × SentBytes (slashes script) initial 2 bytes sending n
send_chunks-SentBytes_example =
    send_chunks-SentBytes always disk masks unpacked same same 2 script initial refl (omega arith)
      bytes sending
