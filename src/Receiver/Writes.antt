-- ===== src/Receiver/Writes.antt =====
-- Receiving the chunks of one file: what it leaves on the disk and in the operation.
use winpinator.Prelude.{
  take, take-length, ℕ, ◌≡◌, refl, ap, ◌∙◌, inl, inr, Bool, true, false, ◌++◌, Text, text_eq,
  text_eq_refl, Option, some, length, arith, Option-cases, if◌then◌else◌,
}
use winpinator.Prelude.Int.{ℤ, ◌+ℤ◌}
use winpinator.Transfers.State.{Env, Manager, emit}
use winpinator.Sender.Files.{FileChunk}
use winpinator.Receiver.Disk.{zone_stream, FileSystem, IsLawful}
use winpinator.Receiver.Progress.{update_paths, update_progress}
use winpinator.Receiver.Files.{
  Call, Receiving, zone_content, write_zone_stream, write_open, process_file,
}

-- The writes of a chunk to the manager keep the settings, and only the progress counts bytes.
module _ (normalize : Text → Text → Option Text) (from_utf8 : Text → Text)
    (full_name_of : Text → Text) (p : ℕ) (chunk : FileChunk) (m : Manager) where
  pub paths-output_path :
      (update_paths normalize from_utf8 full_name_of p chunk m).output_path ≡ m.output_path
  unfolding update_paths
  paths-output_path = ground arith

  pub paths-sent :
      ((update_paths normalize from_utf8 full_name_of p chunk m).ops p).sent_bytes
      ≡ (m.ops p).sent_bytes
  unfolding update_paths
  paths-sent = ground arith

module _ (env : Env) (r : Text) (p : ℕ) (z : ℤ) (m : Manager) where
  pub progress-output_path : (update_progress env r p z m).output_path ≡ m.output_path
  unfolding update_progress emit
  progress-output_path = ground arith

  pub progress-sent : ((update_progress env r p z m).ops p).sent_bytes ≡ (m.ops p).sent_bytes +ℤ z
  unfolding update_progress emit
  progress-sent = ground arith

module _ (fs : FileSystem) (lawful : IsLawful fs) where
  -- A write that does not stop short.
  pub write_whole :
      (s : fs.State) (p b d : Text)
      → fs.written s p d ≡ length d
      → fs.content s p ≡ some b
      → fs.content (fs.write s p d) p ≡ some (b ++ d)
  write_whole s p b d whole e =
      lawful.content-write s p b d e
      ∙ ap (λ n. some (b ++ take n d)) whole
      ∙ ap (λ x. some (b ++ x)) (take-length d)

  -- The zone stream is another file.
  zone-content :
      (path q : Text) (disk : fs.State)
      → fs.same_file (zone_stream path) q ≡ false
      → fs.content (write_zone_stream fs path disk) q ≡ fs.content disk q
  unfolding write_zone_stream
  zone-content path q disk ne = elim (Option-cases (fs.create disk (zone_stream path) true)) [
    | inl e ↦ rw (e, write_zone_stream) refl
    | inr (created, e) ↦
        rw (e, write_zone_stream)
          (lawful.content-write_other created (zone_stream path) q zone_content ne
            ∙ lawful.content-create_other disk created (zone_stream path) q true e ne)
  ]

  -- With or without it.
  abbrev pub zoned : Bool → Text → fs.State → fs.State
  zoned preserve path disk = if preserve then write_zone_stream fs path disk else disk

  pub zoned-content :
      (preserve : Bool) (path q : Text) (disk : fs.State)
      → fs.same_file (zone_stream path) q ≡ false
      → fs.content (zoned preserve path disk) q ≡ fs.content disk q
  zoned-content true path q disk ne = zone-content path q disk ne
  zoned-content false path q disk ne = refl

  module _ (env : Env) (call : Call) (name abs bytes : Text) (s : Receiving fs) where
    -- The first chunk of a file.
    pub process_file_new :
        (created : fs.State)
        → text_eq name s.handle.file_ptr_path ≡ false
        → fs.create s.disk abs call.can_overwrite ≡ some created
        → process_file fs env call name abs bytes s
          ≡ some (record s {
            disk = fs.write (zoned s.manager.preserve_zone_info abs created) abs bytes;
            handle = record { file_ptr_path = name; open_file = some abs };
          })
    unfolding process_file
    process_file_new created new e = rw new (rw (e, process_file) refl)

    pub process_file_next :
        s.handle ≡ record { file_ptr_path = name; open_file = some abs }
        → process_file fs env call name abs bytes s
          ≡ some (record s { disk = fs.write s.disk abs bytes })
    unfolding process_file write_open
    process_file_next e = rw e (rw (text_eq_refl name) refl)
