-- ===== src/Transfers/Settings.antt =====
-- The constructor of `TransferManager` and its setters and getters, in
-- src/service/transfer_manager.cpp.
use winpinator.Prelude.{ℕ, Bool, true, false, [], Text, none}
use winpinator.Transfers.Types.{TransferOp}
use winpinator.Transfers.State.{Manager}

-- The memory that no operation has been stored in is given as an argument.
unfoldable pub new_manager : (ℕ → TransferOp) → Manager
new_manager memory = record {
  ops = memory;
  next_op = 0;
  transfers = λ r. [];
  crawl_jobs = λ j. none;
  crawler = record { last_job_id = 0; jobs = λ j. none };
  last_id = 0;
  output_path = [];
  compression_level = 0;
  must_allow_incoming = true;
  must_allow_overwrite = true;
  preserve_zone_info = false;
  file_perms = 0;
  exec_perms = 0;
  dir_perms = 0;
  effects = [];
}

unfoldable pub set_output_path : Text → Manager → Manager
set_output_path path m = record m { output_path = path }

unfoldable pub set_compression_level : ℕ → Manager → Manager
set_compression_level level m = record m { compression_level = level }

unfoldable pub set_must_allow_incoming : Bool → Manager → Manager
set_must_allow_incoming must m = record m { must_allow_incoming = must }

unfoldable pub set_must_allow_overwrite : Bool → Manager → Manager
set_must_allow_overwrite must m = record m { must_allow_overwrite = must }

unfoldable pub set_preserve_zone_info : Bool → Manager → Manager
set_preserve_zone_info preserve m = record m { preserve_zone_info = preserve }

unfoldable pub set_unix_permission_masks : ℕ → ℕ → ℕ → Manager → Manager
set_unix_permission_masks file executable directory m = record m {
  file_perms = file;
  exec_perms = executable;
  dir_perms = directory;
}
