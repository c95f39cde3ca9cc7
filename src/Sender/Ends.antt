-- ===== src/Sender/Ends.antt =====
-- The run over all files of an operation.
use winpinator.Prelude.{
  ℕ, ◌+◌, ◌<◌, ◌≡◌, ◌⊎◌, Bool, true, false, List, ◌∷◌, ◌++◌, Text, Option, none, some, All, ltb,
}
use winpinator.Sender.Files.{Disk, Masks, Moment, Sending, send_single_entity, transfer_loop}

-- The path is a file that can be opened, or a directory.
abbrev pub CanSend : Disk → Text → Text → Type 0
CanSend disk root path =
    ((content : Text) × (disk.content (root ++ b'\\' ∷ path) ≡ some content)
      × (disk.opens (root ++ b'\\' ∷ path) ≡ true))
    ⊎ ((disk.content (root ++ b'\\' ∷ path) ≡ none)
        × (disk.dir_exists (root ++ b'\\' ∷ path) ≡ true))

-- The run returns, and it has failed, or each path could be sent and the bytes sent are the total size.
abbrev pub Ended : Disk → Text → List Text → Option (Bool × Sending) → Type 0
Ended disk root paths o =
    (ok : Bool) × (n : Sending) × (o ≡ some (ok, n))
    × ((ok ≡ false) ⊎ (All (CanSend disk root) paths × (n.op.sent_bytes ≡ n.op.total_size)))

module _ (moments : ℕ → Moment) (disk : Disk) (masks : Masks) (compress : Text → ℕ → Text)
    (utf8 : Text → Text) (full_name_of : Text → Text) (block_size : ℕ)
    (plain : ltb 0 masks.compress_level ≡ false) (positive : 0 < block_size) where
  -- The call returns, and says yes only where the condition holds.
  abbrev Returns : Type 0 → Option (Bool × Sending) → Type 0
  Returns C o = (ok : Bool) × (n : Sending) × (o ≡ some (ok, n)) × ((ok ≡ false) ⊎ C)

  abbrev entity : Text → Text → Sending → Option (Bool × Sending)
  entity root path s =
      send_single_entity moments disk masks compress utf8 full_name_of block_size root path s

  abbrev loop : Text → List Text → Sending → Option (Bool × Sending)
  loop root paths s =
      transfer_loop moments disk masks compress utf8 full_name_of block_size root paths s

  module _ (root path : Text) (paths : List Text) (s : Sending) where
    abbrev checked : Sending
    checked = record s { tick = s.tick + 1 }
