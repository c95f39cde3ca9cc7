-- ===== src/Receiver/Disk.antt =====
-- The file system as src/service/transfer_manager_reactor.cpp uses it, through `wxFile` and the
-- functions of wxWidgets. It is a parameter; `IsLawful` is what Windows and wxWidgets document of it. Two
-- paths may name one file, by the case of their letters or by a link; no link changes during a call.
use winpinator.Prelude.{ℕ, ◌≡◌, ◌++◌, [], Bool, false, Text, codes, Option, some, take, length}

pub record FileSystem : Type 1 where
  pub State : Type 0
  pub content : State → Text → Option Text
  pub dir_exists : State → Text → Bool
  pub file_exists : State → Text → Bool
  -- whether the two paths name the same file
  pub same_file : Text → Text → Bool
  -- `wxFile::Create`, with its `overwrite`; `none` is a failure
  pub create : State → Text → Bool → Option State
  -- `wxFile::Write` at the end of the file that is open under the path, and the number of bytes that it
  -- returns, which may be less than there are
  pub write : State → Text → Text → State
  pub written : State → Text → Text → ℕ
  pub remove : State → Text → State
  pub mkdir : State → Text → Option State

-- The alternate data stream that takes the zone of a file.
abbrev pub zone_stream : Text → Text
zone_stream path = path ++ codes ":Zone.Identifier:$DATA"

-- A created file is empty, a write puts the bytes that it counts at its end, and every operation leaves
-- the other files alone; so does making a directory leave all of them. A stream of a file is not the file.
pub record IsLawful (fs : FileSystem) : Type 0 where
  pub zone_apart : (p : Text) → fs.same_file (zone_stream p) p ≡ false
  pub content-create :
      (s t : fs.State) (p : Text) (overwrite : Bool)
      → fs.create s p overwrite ≡ some t
      → fs.content t p ≡ some []
  pub content-create_other :
      (s t : fs.State) (p q : Text) (overwrite : Bool)
      → fs.create s p overwrite ≡ some t
      → fs.same_file p q ≡ false
      → fs.content t q ≡ fs.content s q
  pub content-write :
      (s : fs.State) (p b d : Text)
      → fs.content s p ≡ some b
      → fs.content (fs.write s p d) p ≡ some (b ++ take (fs.written s p d) d)
  pub content-write_other :
      (s : fs.State) (p q d : Text)
      → fs.same_file p q ≡ false
      → fs.content (fs.write s p d) q ≡ fs.content s q
  pub content-remove_other :
      (s : fs.State) (p q : Text)
      → fs.same_file p q ≡ false
      → fs.content (fs.remove s p) q ≡ fs.content s q
  pub content-mkdir :
      (s t : fs.State) (p q : Text) → fs.mkdir s p ≡ some t → fs.content t q ≡ fs.content s q

-- No write stops short, as where the disk has room.
abbrev pub WritesAll : FileSystem → Type 0
WritesAll fs = (s : fs.State) (p d : Text) → fs.written s p d ≡ length d
