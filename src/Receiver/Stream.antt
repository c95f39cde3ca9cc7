-- ===== src/Receiver/Stream.antt =====
-- Receiving the chunks of one file one after the other.
use winpinator.Prelude.{
  ℕ, suc, ◌<◌, ◌≡◌, refl, sym, ap, ◌∙◌, true, false, List, [], ◌∷◌, ◌++◌, Text, text_eq, Option,
  some, All, length, length-append, arith, ◌==◌, ==_iff,
}
use winpinator.Prelude.Int.{pos, ◌+ℤ◌, +ℤ_parts, eq_of_parts}
use winpinator.Transfers.Types.{regular_file_type}
use winpinator.Transfers.State.{Env, Manager}
use winpinator.Sender.Files.{FileChunk}
use winpinator.Sender.Laws.{all_bytes}
use winpinator.Receiver.Disk.{zone_stream, FileSystem, IsLawful, WritesAll}
use winpinator.Receiver.Progress.{get_absolute_path, is_empty, update_paths, update_progress}
use winpinator.Receiver.Files.{
  Call, Receiving, process_file, process_at, process_data, received_bytes, process_chunk,
  on_read_done, receive,
}
use winpinator.Receiver.Writes.{
  paths-output_path, paths-sent, progress-output_path, progress-sent, write_whole, zoned,
  zoned-content, process_file_new, process_file_next,
}
use mathlib.Core.List.{append_assoc, append-nil}

module _ (fs : FileSystem) where
  -- From `s` to `t` the file `abs` has got the bytes and stays open for the chunks of `name`; no other
  -- file but its zone stream has changed, and the progress has grown by the number of the bytes.
  pub record Wrote (op : ℕ) (name abs before bytes : Text) (s t : Receiving fs) : Type 0 where
    pub stored : fs.content t.disk abs ≡ some (before ++ bytes)
    pub others :
        (q : Text)
        → fs.same_file abs q ≡ false
        → fs.same_file (zone_stream abs) q ≡ false
        → fs.content t.disk q ≡ fs.content s.disk q
    pub open_file : t.handle ≡ record { file_ptr_path = name; open_file = some abs }
    pub same_output : t.manager.output_path ≡ s.manager.output_path
    pub progress :
        (t.manager.ops op).sent_bytes ≡ (s.manager.ops op).sent_bytes +ℤ pos (length bytes)

  module _ (lawful : IsLawful fs) (whole : WritesAll fs) (normalize : Text → Text → Option Text)
      (from_utf8 : Text → Text) (full_name_of : Text → Text) (decompress : Text → Text)
      (call : Call) (plain : call.use_compression ≡ false) (name abs output : Text)
      (target : get_absolute_path normalize output (from_utf8 name) ≡ abs)
      (inside : is_empty abs ≡ false) where
    at_eq :
        (env : Env) (c : FileChunk) (bytes : Text) (u : Receiving fs)
        → (c.file_type == regular_file_type) ≡ true
        → process_at fs env call c abs bytes u
          ≡ process_file fs env call c.relative_path abs bytes u
    unfolding process_at
    at_eq env c bytes u regular = rw (inside, regular) refl

    data_eq :
        (env : Env) (c : FileChunk) (bytes : Text) (u : Receiving fs)
        → c.relative_path ≡ name
        → c.file_type ≡ regular_file_type
        → u.manager.output_path ≡ output
        → process_data fs normalize from_utf8 full_name_of decompress env call c bytes u
          ≡ process_file fs env call name abs bytes u
    unfolding process_data
    data_eq env c bytes u same kind out =
        let found : get_absolute_path normalize u.manager.output_path (from_utf8 c.relative_path)
            ≡ abs =
          ap (λ o. get_absolute_path normalize o (from_utf8 c.relative_path)) out
          ∙ ap (λ n. get_absolute_path normalize output (from_utf8 n)) same
          ∙ target in
        let regular : (c.file_type == regular_file_type) ≡ true = (==_iff _ _).1 kind in
        ap (λ a. process_at fs env call c a bytes u) found
        ∙ at_eq env c bytes u regular
        ∙ ap (λ n. process_file fs env call n abs bytes u) same

    module _ (env : Env) (c : FileChunk) (s : Receiving fs) where
      abbrev counted : Manager
      counted =
          update_progress env call.remote_id call.op (pos (length c.chunk))
            (update_paths normalize from_utf8 full_name_of call.op c s.manager)

      counted-output : counted.output_path ≡ s.manager.output_path
      counted-output =
          progress-output_path env call.remote_id call.op (pos (length c.chunk))
            (update_paths normalize from_utf8 full_name_of call.op c s.manager)
          ∙ paths-output_path normalize from_utf8 full_name_of call.op c s.manager

      counted-sent :
          (counted.ops call.op).sent_bytes
          ≡ (s.manager.ops call.op).sent_bytes +ℤ pos (length c.chunk)
      counted-sent =
          progress-sent env call.remote_id call.op (pos (length c.chunk))
            (update_paths normalize from_utf8 full_name_of call.op c s.manager)
          ∙ ap (λ z. z +ℤ pos (length c.chunk))
              (paths-sent normalize from_utf8 full_name_of call.op c s.manager)

      read_eq :
          c.relative_path ≡ name
          → c.file_type ≡ regular_file_type
          → s.manager.output_path ≡ output
          → on_read_done fs normalize from_utf8 full_name_of decompress env call c s
            ≡ process_file fs env call name abs c.chunk (record s { manager = counted })
      unfolding on_read_done
      read_eq same kind out =
          ap
            (λ b.
              process_chunk fs normalize from_utf8 full_name_of decompress env call c
                (received_bytes fs normalize from_utf8 full_name_of decompress b c.chunk) s)
            plain
          ∙ data_eq env c c.chunk (record s { manager = counted }) same kind (counted-output ∙ out)

      -- Each chunk of the file adds its bytes.
      next-Wrote :
          (before : Text)
          → c.relative_path ≡ name
          → c.file_type ≡ regular_file_type
          → s.manager.output_path ≡ output
          → s.handle ≡ record { file_ptr_path = name; open_file = some abs }
          → fs.content s.disk abs ≡ some before
          → (t : Receiving fs) × (on_read_done fs normalize from_utf8 full_name_of decompress env
                call c s
              ≡ some t)
            × Wrote call.op name abs before c.chunk s t
      next-Wrote before same kind out opened stored = (
        record s { manager = counted; disk = fs.write s.disk abs c.chunk },
        read_eq same kind out
            ∙ process_file_next fs lawful env call name abs c.chunk (record s { manager = counted })
                opened,
        record {
          stored =
              write_whole fs lawful s.disk abs before c.chunk (whole s.disk abs c.chunk) stored;
          others = λ q ne _. lawful.content-write_other s.disk abs q c.chunk ne;
          open_file = opened;
          same_output = counted-output;
          progress = counted-sent;
        },
      )

      new-Wrote :
          (created : fs.State)
          → c.relative_path ≡ name
          → c.file_type ≡ regular_file_type
          → s.manager.output_path ≡ output
          → text_eq name s.handle.file_ptr_path ≡ false
          → fs.create s.disk abs call.can_overwrite ≡ some created
          → (t : Receiving fs) × (on_read_done fs normalize from_utf8 full_name_of decompress env
                call c s
              ≡ some t)
            × Wrote call.op name abs [] c.chunk s t
      new-Wrote created same kind out new made =
          let ready = zoned fs lawful counted.preserve_zone_info abs created in
          (
            record s {
              manager = counted;
              disk = fs.write ready abs c.chunk;
              handle = record { file_ptr_path = name; open_file = some abs };
            },
            read_eq same kind out
                ∙ process_file_new fs lawful env call name abs c.chunk
                    (record s { manager = counted }) created new made,
            record {
              stored = write_whole fs lawful ready abs [] c.chunk (whole ready abs c.chunk) (
                  zoned-content fs lawful counted.preserve_zone_info abs abs created
                    (lawful.zone_apart abs)
                  ∙ lawful.content-create s.disk created abs call.can_overwrite made);
              others = λ q ne nz.
                  lawful.content-write_other ready abs q c.chunk ne
                  ∙ zoned-content fs lawful counted.preserve_zone_info abs q created nz
                  ∙ lawful.content-create_other s.disk created abs q call.can_overwrite made ne;
              open_file = refl;
              same_output = counted-output;
              progress = counted-sent;
            },
          )

    abbrev OfFile : FileChunk → Type 0
    OfFile c = (c.relative_path ≡ name) × (c.file_type ≡ regular_file_type)

    Wrote-trans :
        (before b d : Text) (s t u : Receiving fs)
        → Wrote call.op name abs before b s t
        → Wrote call.op name abs (before ++ b) d t u
        → Wrote call.op name abs before (b ++ d) s u
    Wrote-trans before b d s t u first second = record {
      stored = second.stored ∙ ap some (append_assoc before b d);
      others = λ q ne nz. second.others q ne nz ∙ first.others q ne nz;
      open_file = second.open_file;
      same_output = second.same_output ∙ first.same_output;
      progress =
          second.progress
          ∙ ap (λ z. z +ℤ pos (length d)) first.progress
          ∙ eq_of_parts _ _ (
              omega (
                arith,
                length-append b d,
                +ℤ_parts (s.manager.ops call.op).sent_bytes (pos (length b)),
                +ℤ_parts ((s.manager.ops call.op).sent_bytes +ℤ pos (length b)) (pos (length d)),
                +ℤ_parts (s.manager.ops call.op).sent_bytes (pos (length (b ++ d))),
              ));
    }

    abbrev run : (ℕ → Env) → ℕ → List FileChunk → Receiving fs → Option (Receiving fs)
    run envs i cs s = receive fs normalize from_utf8 full_name_of decompress envs i call cs s

    run_cons :
        (envs : ℕ → Env) (i : ℕ) (c : FileChunk) (cs : List FileChunk) (s t : Receiving fs)
        → on_read_done fs normalize from_utf8 full_name_of decompress (envs i) call c s ≡ some t
        → run envs i (c ∷ cs) s ≡ run envs (suc i) cs t
    unfolding receive
    run_cons envs i c cs s t e = rw (e, receive) refl

    run-Wrote_next :
        (envs : ℕ → Env) (i : ℕ) (cs : List FileChunk) (before : Text) (s : Receiving fs)
        → All OfFile cs
        → s.manager.output_path ≡ output
        → s.handle ≡ record { file_ptr_path = name; open_file = some abs }
        → fs.content s.disk abs ≡ some before
        → (t : Receiving fs) × (run envs i cs s ≡ some t)
          × Wrote call.op name abs before (all_bytes cs) s t
    run-Wrote_next envs i [] before s _ out opened stored = (
      s,
      unfold receive in refl,
      record {
        stored = stored ∙ ap some (sym (append-nil before));
        others = λ q _ _. refl;
        open_file = opened;
        same_output = refl;
        progress =
            eq_of_parts _ _ (omega (arith, +ℤ_parts (s.manager.ops call.op).sent_bytes (pos 0)));
      },
    )
    run-Wrote_next envs i (c ∷ cs) before s (of_c, of_cs) out opened stored =
        let (u, step, wrote) = next-Wrote (envs i) c s before of_c.0 of_c.1 out opened stored in
        let (t, rest, wrote_rest) =
          run-Wrote_next envs (suc i) cs (before ++ c.chunk) u of_cs (wrote.same_output ∙ out)
            wrote.open_file wrote.stored in
        (
          t,
          run_cons envs i c cs s u step ∙ rest,
          Wrote-trans before c.chunk (all_bytes cs) s u t wrote wrote_rest,
        )

    -- All chunks of a file that was not open: it is created and gets their bytes.
    pub run-Wrote :
        (envs : ℕ → Env) (i : ℕ) (cs : List FileChunk) (s : Receiving fs) (created : fs.State)
        → All OfFile cs
        → 0 < length cs
        → s.manager.output_path ≡ output
        → text_eq name s.handle.file_ptr_path ≡ false
        → fs.create s.disk abs call.can_overwrite ≡ some created
        → (t : Receiving fs) × (run envs i cs s ≡ some t)
          × Wrote call.op name abs [] (all_bytes cs) s t
    run-Wrote envs i [] s created _ some_chunk out new made = absurd (omega arith)
    run-Wrote envs i (c ∷ cs) s created (of_c, of_cs) _ out new made =
        let (u, step, wrote) = new-Wrote (envs i) c s created of_c.0 of_c.1 out new made in
        let (t, rest, wrote_rest) =
          run-Wrote_next envs (suc i) cs c.chunk u of_cs (wrote.same_output ∙ out) wrote.open_file
            wrote.stored in
        (
          t,
          run_cons envs i c cs s u step ∙ rest,
          Wrote-trans [] c.chunk (all_bytes cs) s u t wrote wrote_rest,
        )
