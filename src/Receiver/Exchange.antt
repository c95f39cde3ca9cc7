-- ===== src/Receiver/Exchange.antt =====
-- One file from the loop of `FileSender` to the disk of the receiver.
use winpinator.Prelude.{
  ℕ, ◌+◌, ◌<◌, ◌≡◌, refl, ap, ◌∙◌, false, List, ◌++◌, Text, text_eq, Option, some, length, ltb,
  All-map,
}
use winpinator.Prelude.Int.{pos, ◌+ℤ◌}
use winpinator.Permissions.{UnixPermissions}
use winpinator.Transfers.State.{Env}
use winpinator.Sender.Files.{slashes, FileChunk, Disk, Masks, Moment, Sending, send_chunks}
use winpinator.Sender.Laws.{send_chunks-SentBytes}
use winpinator.Receiver.Disk.{zone_stream, FileSystem, IsLawful, WritesAll}
use winpinator.Receiver.Progress.{get_absolute_path, is_empty}
use winpinator.Receiver.Files.{Call, Receiving, receive}
use winpinator.Receiver.Stream.{run-Wrote}

-- The sender.
module _ (moments : ℕ → Moment) (disk : Disk) (masks : Masks) (compress : Text → ℕ → Text)
    (utf8 : Text → Text) (sender_name_of : Text → Text) (block_size : ℕ) (path : Text)
    (permissions : UnixPermissions) (plain : ltb 0 masks.compress_level ≡ false)
    (positive : 0 < block_size) where
  -- The receiver, whose disk obeys the laws.
  module _ (fs : FileSystem) (lawful : IsLawful fs) (whole : WritesAll fs)
      (normalize : Text → Text → Option Text) (from_utf8 : Text → Text) (full_name_of : Text → Text)
      (decompress : Text → Text) (call : Call) (unpacked : call.use_compression ≡ false) where
    -- A file that is sent without compression arrives where every write takes all of its bytes: the
    -- sender's loop over it ends with chunks appended to its stream, and a receiver that has no file of
    -- that name open, whose path for the name lies inside its output folder and can be created there,
    -- takes these chunks without a null pointer and has the same bytes under the path. A file that neither
    -- that path nor that of the zone stream beside it names keeps its content, and the receiver's progress
    -- grows by the length of the file.
    pub receive-send_chunks :
        (content abs : Text) (s : Sending) (envs : ℕ → Env) (i : ℕ) (u : Receiving fs)
        (created : fs.State)
        → get_absolute_path normalize u.manager.output_path (from_utf8 (utf8 (slashes path))) ≡ abs
        → is_empty abs ≡ false
        → text_eq (utf8 (slashes path)) u.handle.file_ptr_path ≡ false
        → fs.create u.disk abs call.can_overwrite ≡ some created
        → (q : Text) → fs.same_file abs q ≡ false
        → fs.same_file (zone_stream abs) q ≡ false
        → (n : Sending) × (cs : List FileChunk) × (t : Receiving fs) × (send_chunks moments disk
              masks compress utf8 sender_name_of
              (length content + 1)
              block_size
              path
              permissions
              content
              s
            ≡ some n)
          × (n.written ≡ s.written ++ cs)
          × (receive fs normalize from_utf8 full_name_of decompress envs i call cs u ≡ some t)
          × (fs.content t.disk abs ≡ some content)
          × (fs.content t.disk q ≡ fs.content u.disk q)
          × ((t.manager.ops call.op).sent_bytes
              ≡ (u.manager.ops call.op).sent_bytes +ℤ pos (length content))
    receive-send_chunks content abs s envs i u created target inside new made q ne nz =
        let (n, returns, sent) =
          send_chunks-SentBytes moments disk masks compress utf8 sender_name_of block_size path
            permissions plain positive content s in
        let (t, taken, wrote) =
          run-Wrote fs lawful whole normalize from_utf8 full_name_of decompress call unpacked
            (utf8 (slashes path)) abs u.manager.output_path target inside envs i sent.chunks u
            created (All-map _ _ sent.chunks (λ c h. (h.0, h.1)) sent.each) sent.some_chunk refl new
            made in
        (
          n,
          sent.chunks,
          t,
          returns,
          sent.appended,
          taken,
          wrote.stored ∙ ap some sent.together,
          wrote.others q ne nz,
          wrote.progress
              ∙ ap (λ b. (u.manager.ops call.op).sent_bytes +ℤ pos (length b)) sent.together,
        )
