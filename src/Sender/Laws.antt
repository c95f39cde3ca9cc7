-- ===== src/Sender/Laws.antt =====
-- The chunks of a sent file.
use winpinator.Prelude.{
  ℕ, zero, suc, ◌+◌, ◌≤◌, ◌<◌, ◌≡◌, refl, sym, ap, ◌∙◌, ◌⊎◌, inl, inr, true, false, List, [], ◌∷◌,
  ◌++◌, Text, Option, some, All, length, take, drop, take-append_drop, length-append, arith, ltb,
}
use winpinator.Prelude.Int.{ℤ, pos, ◌+ℤ◌, +ℤ_parts, eq_of_parts}
use winpinator.Permissions.{UnixPermissions, convert_to_decimal}
use winpinator.Transfers.Types.{regular_file_type}
use winpinator.Sender.Files.{
  slashes, FileChunk, Disk, Masks, Moment, Sending, update_progress, add_sent, write, file_chunk,
  send_chunks,
}
use mathlib.Core.List.{append_assoc}

abbrev pub all_bytes : List FileChunk → Text
all_bytes [] = []
all_bytes (c ∷ cs) = c.chunk ++ all_bytes cs

module _ (moments : ℕ → Moment) where
  progress-sent :
      (n : ℕ) (s : Sending)
      → (update_progress moments (pos n) s).op.sent_bytes ≡ s.op.sent_bytes +ℤ pos n
  unfolding update_progress add_sent
  progress-sent n s = ground arith

  progress-written : (n : ℕ) (s : Sending) → (update_progress moments (pos n) s).written ≡ s.written
  unfolding update_progress add_sent
  progress-written n s = ground arith

abbrev plain_chunk : Text → Text → UnixPermissions → Text → FileChunk
plain_chunk name path permissions bytes = record {
  relative_path = name;
  file_type = 1;
  symlink_target = [];
  chunk = bytes;
  file_mode = convert_to_decimal permissions;
}

take_cases :
    (k : ℕ) (rest : Text)
    → 0 < k
    → (rest ≡ [])
      ⊎ ((ltb 0 (length (take k rest)) ≡ true)
          × (length (take k rest) ≤ k)
          × (length (take k rest) + length (drop k rest) ≡ length rest)
          × (length (drop k rest) < length rest))
take_cases zero rest h = absurd (omega arith)
take_cases (suc k) [] h = inl refl
take_cases (suc k) (x ∷ xs) h =
    let sum : length (take k xs) + length (drop k xs) ≡ length xs =
      sym (length-append (take k xs) (drop k xs)) ∙ ap length (take-append_drop k xs) in
    inr (ground arith, omega (arith, take_bound k xs), omega (arith, sum), omega (arith, sum))
  where
    take_bound : (k : ℕ) (xs : Text) → length (take k xs) ≤ k
    take_bound zero xs = omega arith
    take_bound (suc k) [] = omega arith
    take_bound (suc k) (x ∷ xs) = omega (arith, take_bound k xs)

-- The chunks that took `s` to `n` are those of the bytes `rest`: all for the path, a regular file and the
-- mode, and at most a block long, at least one, and the progress has grown by their number.
pub record SentBytes (name : Text) (permissions : UnixPermissions) (block_size : ℕ) (rest : Text)
    (s n : Sending) : Type 0 where
  pub chunks : List FileChunk
  pub appended : n.written ≡ s.written ++ chunks
  pub together : all_bytes chunks ≡ rest
  pub each :
      All
        (λ c.
          (c.relative_path ≡ name)
          × (c.file_type ≡ regular_file_type)
          × (c.file_mode ≡ convert_to_decimal permissions)
          × (length c.chunk ≤ block_size))
        chunks
  pub some_chunk : 0 < length chunks
  pub progress : n.op.sent_bytes ≡ s.op.sent_bytes +ℤ pos (length rest)

module _ (moments : ℕ → Moment) (disk : Disk) (masks : Masks) (compress : Text → ℕ → Text)
    (utf8 : Text → Text) (full_name_of : Text → Text) (block_size : ℕ) (path : Text)
    (permissions : UnixPermissions) (plain : ltb 0 masks.compress_level ≡ false)
    (positive : 0 < block_size) where
  abbrev name : Text
  name = utf8 (slashes path)

  abbrev one : Text → FileChunk
  one bytes = file_chunk moments disk masks compress utf8 full_name_of path permissions bytes

  one_chunk : (bytes : Text) → (one bytes).chunk ≡ bytes
  unfolding file_chunk
  one_chunk bytes = rw plain refl

  abbrev stepped : Text → Sending → Sending
  stepped rest s =
      update_progress moments (pos (length (take block_size rest)))
        (write (one (take block_size rest)) s)

  stepped_written :
      (rest : Text) (s : Sending)
      → (stepped rest s).written ≡ s.written ++ one (take block_size rest) ∷ []
  stepped_written rest s =
      progress-written moments (length (take block_size rest))
        (write (one (take block_size rest)) s)
      ∙ unfold write in refl

  stepped_sent :
      (rest : Text) (s : Sending)
      → (stepped rest s).op.sent_bytes ≡ s.op.sent_bytes +ℤ pos (length (take block_size rest))
  stepped_sent rest s =
      progress-sent moments (length (take block_size rest)) (write (one (take block_size rest)) s)
      ∙ unfold write in refl

  add_pos : (z : ℤ) (a b c : ℕ) → a + b ≡ c → (z +ℤ pos a) +ℤ pos b ≡ z +ℤ pos c
  add_pos z a b c e =
      eq_of_parts _ _
        (omega (arith, +ℤ_parts z (pos a), +ℤ_parts (z +ℤ pos a) (pos b), +ℤ_parts z (pos c)))

  SentBytes-cons :
      (rest : Text) (s n : Sending)
      → length (take block_size rest) ≤ block_size
      → length (take block_size rest) + length (drop block_size rest) ≡ length rest
      → SentBytes name permissions block_size (drop block_size rest) (stepped rest s) n
      → SentBytes name permissions block_size rest s n
  unfolding file_chunk
  SentBytes-cons rest s n small sum later = record {
    chunks = one (take block_size rest) ∷ later.chunks;
    appended =
        later.appended
        ∙ ap (λ w. w ++ later.chunks) (stepped_written rest s)
        ∙ append_assoc s.written (one (take block_size rest) ∷ []) later.chunks;
    together =
        ap (λ b. b ++ all_bytes later.chunks) (one_chunk (take block_size rest))
        ∙ ap (λ b. take block_size rest ++ b) later.together
        ∙ take-append_drop block_size rest;
    each = ((refl, refl, refl, rw (one_chunk (take block_size rest)) small), later.each);
    some_chunk = omega arith;
    progress =
        later.progress
        ∙ ap (λ z. z +ℤ pos (length (drop block_size rest))) (stepped_sent rest s)
        ∙ add_pos s.op.sent_bytes _ _ _ sum;
  }

  SentBytes-nil : (s : Sending) → SentBytes name permissions block_size [] s (write (one []) s)
  unfolding write file_chunk
  SentBytes-nil s = record {
    chunks = one [] ∷ [];
    appended = refl;
    together = ap (λ b. b ++ []) (one_chunk []);
    each = ((refl, refl, refl, rw (one_chunk []) (omega arith)), tt);
    some_chunk = omega arith;
    progress = eq_of_parts _ _ (omega (arith, +ℤ_parts s.op.sent_bytes (pos 0)));
  }

  abbrev run : ℕ → Text → Sending → Option Sending
  run fuel rest s =
      send_chunks moments disk masks compress utf8 full_name_of fuel block_size path permissions
        rest s

  run_end : (fuel : ℕ) (s : Sending) → run (suc fuel) [] s ≡ some (write (one []) s)
  unfolding send_chunks
  run_end fuel s = rw (take_none block_size) (ground arith)
    where
      take_none : (k : ℕ) → take {A = ℕ} k [] ≡ []
      take_none zero = refl
      take_none (suc k) = refl

  run_more :
      (fuel : ℕ) (rest : Text) (s : Sending)
      → ltb 0 (length (take block_size rest)) ≡ true
      → run (suc fuel) rest s ≡ run fuel (drop block_size rest) (stepped rest s)
  unfolding send_chunks
  run_more fuel rest s more = rw more refl

  run_sends :
      (fuel : ℕ) (rest : Text) (s : Sending)
      → length rest < fuel
      → (n : Sending) × (run fuel rest s ≡ some n) × SentBytes name permissions block_size rest s n
  run_sends zero rest s enough = absurd (omega arith)
  run_sends (suc fuel) rest s enough = elim (take_cases block_size rest positive) [
    | inl done ↦ (write (one []) s, rw done (run_end fuel s), rw done (SentBytes-nil s))
    | inr (more, small, sum, fewer) ↦
        let (n, returns, sent) =
          run_sends fuel (drop block_size rest) (stepped rest s) (omega arith) in
        (n, run_more fuel rest s more ∙ returns, SentBytes-cons rest s n small sum sent)
  ]

  -- Without compression the loop over a file ends, and the chunks that it writes hold the bytes of
  -- the file in order; each is at most a block long and carries the path and the mode of the file,
  -- and the bytes sent so far grow by the length of the file.
  pub send_chunks-SentBytes :
      (content : Text) (s : Sending)
      → (n : Sending) × (send_chunks moments disk masks compress utf8 full_name_of
            (length content + 1)
            block_size
            path
            permissions
            content
            s
          ≡ some n)
        × SentBytes name permissions block_size content s n
  send_chunks-SentBytes content s = run_sends (length content + 1) content s (omega arith)
