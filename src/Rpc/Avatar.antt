-- ===== src/Rpc/Avatar.antt =====
-- `GetRemoteMachineAvatar` of src/service/warp_service_impl.cpp and the reader that puts the chunks
-- together in src/service/remote_handler.cpp.
use winpinator.Prelude.{
  drop-drop, take-append_drop, length-take, length-drop, drop-all, ◌⊎◌, ℕ, zero, suc, ◌+◌, ◌-◌, ◌<◌,
  ◌≤◌, ◌≡◌, refl, sym, ap, ◌∙◌, inl, inr, List, [], ◌∷◌, ◌++◌, Option, none, some, All, length,
  take, drop, arith, ◌==◌, if◌then◌else◌,
}
use Prim.Native.Nat.{min}
use mathlib.Core.List.{append_assoc, append-nil}
use winpinator.Rpc.Requests.{Status, ok, not_found}

abbrev pub Bytes : Type 0
Bytes = List ℕ

-- The loop, with the bytes of the message as a slice; `none` when the fuel has run out. The source
-- takes blocks of 1 MB.
unfoldable pub avatar_chunks : ℕ → ℕ → Bytes → ℕ → Option (List Bytes)
avatar_chunks zero block_size buffer at = none
avatar_chunks (suc fuel) block_size buffer at =
    let this_block_size = min block_size (length buffer - at) in
    let rest = avatar_chunks fuel block_size buffer (at + this_block_size) in
    if this_block_size == 0
    then some []
    else elim rest [ none ↦ none | some cs ↦ some (take this_block_size (drop at buffer) ∷ cs) ]

-- `m_avatar` is null or holds the bytes; the answer is the status and the chunks that are written.
unfoldable pub get_remote_machine_avatar : ℕ → ℕ → Option Bytes → Option (Status × List Bytes)
get_remote_machine_avatar fuel block_size none = some (not_found, [])
get_remote_machine_avatar fuel block_size (some []) = some (not_found, [])
get_remote_machine_avatar fuel block_size (some (b ∷ bs)) =
    elim (avatar_chunks fuel block_size (b ∷ bs) 0) [
      | none ↦ none
      | some chunks ↦ some (ok, chunks)
    ]

-- `OnReadDone`, once for each chunk.
unfoldable pub collect_chunks : Bytes → List Bytes → Bytes
collect_chunks buffer [] = buffer
collect_chunks buffer (c ∷ cs) = collect_chunks (buffer ++ c) cs

-- The chunks of a message, of at most a block each and none of them empty, are what is left of it.
record Covers (block_size : ℕ) (rest : Bytes) (cs : List Bytes) : Type 0 where
  together : (got : Bytes) → collect_chunks got cs ≡ got ++ rest
  sizes : All (λ c. (0 < length c) × (length c ≤ block_size)) cs

module _ (block_size : ℕ) (positive : 0 < block_size) (buffer : Bytes) where
  size_cases :
      (at : ℕ)
      → at ≤ length buffer
      → let k = min block_size (length buffer - at) in
        ((k ≡ 0) × (length buffer ≤ at)) ⊎ ((0 < k) × (k ≤ block_size) × (at + k ≤ length buffer))
  size_cases at h = ground arith

  avatar_chunks_end :
      (fuel at : ℕ)
      → min block_size (length buffer - at) ≡ 0
      → avatar_chunks (suc fuel) block_size buffer at ≡ some []
  unfolding avatar_chunks
  avatar_chunks_end fuel at e = rw e refl

  avatar_chunks_more :
      (fuel at : ℕ) (cs : List Bytes)
      → let k = min block_size (length buffer - at) in
        0 < k
        → avatar_chunks fuel block_size buffer (at + k) ≡ some cs
        → avatar_chunks (suc fuel) block_size buffer at ≡ some (take k (drop at buffer) ∷ cs)
  unfolding avatar_chunks
  avatar_chunks_more fuel at cs h e = rw (e, avatar_chunks) (ground arith)

  Covers-cons :
      (at k : ℕ) (cs : List Bytes)
      → 0 < k
      → k ≤ block_size
      → at + k ≤ length buffer
      → Covers block_size (drop (at + k) buffer) cs
      → Covers block_size (drop at buffer) (take k (drop at buffer) ∷ cs)
  unfolding collect_chunks
  Covers-cons at k cs h b l c = record {
    together = λ got.
        c.together (got ++ take k (drop at buffer))
        ∙ append_assoc got (take k (drop at buffer)) (drop (at + k) buffer)
        ∙ ap (λ xs. got ++ xs)
            (ap (λ xs. take k (drop at buffer) ++ xs) (sym (drop-drop at k buffer))
              ∙ take-append_drop k (drop at buffer));
    sizes = (
      rw (length-take k (drop at buffer) (rw (length-drop at buffer) (omega arith))) (h, b),
      c.sizes,
    );
  }

  avatar_chunks-Covers :
      (fuel at : ℕ)
      → at ≤ length buffer
      → length buffer - at < fuel
      → (cs : List Bytes) × (avatar_chunks fuel block_size buffer at ≡ some cs)
        × Covers block_size (drop at buffer) cs
  unfolding collect_chunks
  avatar_chunks-Covers zero at l f = absurd (omega arith)
  avatar_chunks-Covers (suc fuel) at l f = elim (size_cases at l) [
    | inl (e, over) ↦ (
      [],
      avatar_chunks_end fuel at e,
      record { together = λ got. rw (drop-all at buffer over) (sym (append-nil got)); sizes = tt },
    )
    | inr (h, b, within) ↦
        let (cs, run, covers) =
          avatar_chunks-Covers fuel (at + min block_size (length buffer - at)) within
            (omega arith) in
        (
          take (min block_size (length buffer - at)) (drop at buffer) ∷ cs,
          avatar_chunks_more fuel at cs h run,
          Covers-cons at (min block_size (length buffer - at)) cs h b within covers,
        )
  ]

-- A present avatar is sent in chunks of at most a block, none of them empty, and the receiver, which
-- joins the chunks in the order of their arrival, has the avatar again; the loop ends within as many
-- rounds as there are bytes and one more.
pub collect-get_remote_machine_avatar :
    (block_size : ℕ) (b : ℕ) (bs : Bytes)
    → 0 < block_size
    → let avatar = b ∷ bs in
      (chunks : List Bytes) × (get_remote_machine_avatar
          (length avatar + 1)
          block_size
          (some avatar)
        ≡ some (ok, chunks))
      × (collect_chunks [] chunks ≡ avatar)
      × All (λ c. (0 < length c) × (length c ≤ block_size)) chunks
unfolding get_remote_machine_avatar
collect-get_remote_machine_avatar block_size b bs positive =
    let (chunks, run, covers) =
      avatar_chunks-Covers block_size positive (b ∷ bs) (length (b ∷ bs) + 1) 0 (omega arith)
        (omega arith) in
    (chunks, rw (run, get_remote_machine_avatar) refl, covers.together [], covers.sizes)
