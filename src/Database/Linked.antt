-- ===== src/Database/Linked.antt =====
-- The tables of src/service/database_manager.cpp hold together: every path belongs to a transfer.
use winpinator.Prelude.{
  ℕ, ◌≤◌, ◌≡◌, refl, inl, inr, Bool, true, false, not, ◌||◌, List, [], ◌∷◌, ◌++◌, Text, text_eq,
  All, All-map, arith, Bool-cases, if_cases,
}
use winpinator.Transfers.Types.{TargetInfo}
use winpinator.Prelude.Int.{ℤ, pos, negsuc}
use winpinator.Database.Tables.{TransferRow, PathRow, Tables, id_is, same_int}
use winpinator.Database.Session.{Sqlite, sqlite_ok, sqlite_done}
use winpinator.Database.History.{
  keep_rows, delete_transfers, delete_paths, delete_targets, replace_target, is_joined,
  delete_joined,
}

-- Every statement succeeds.
pub record Succeeds (sqlite : Sqlite) : Type 0 where
  pub control : (n : ℕ) → sqlite.control n ≡ sqlite_ok
  pub answers : (n : ℕ) → sqlite.answers n ≡ sqlite_done
  pub execs : (n : ℕ) → sqlite.execs n ≡ sqlite_ok

-- A transfer with the identifier is stored.
abbrev pub owned : ℤ → List TransferRow → Bool
owned id [] = false
owned id (r ∷ rs) = id_is id r.id || owned id rs

pub record IsValid (t : Tables) : Type 0 where
  pub ids : All (λ (r : TransferRow). r.id ≤ t.last_transfer) t.transfers
  pub linked : All (λ (p : PathRow). owned p.transfer_id t.transfers ≡ true) t.transfer_paths

pub owned-append :
    (id : ℤ) (rs xs : List TransferRow) → owned id rs ≡ true → owned id (rs ++ xs) ≡ true
owned-append id [] xs h = cc
owned-append id (r ∷ rs) xs h = elim (Bool-cases (id_is id r.id)) [
  | inl e ↦ rw e refl
  | inr e ↦ rw e (owned-append id rs xs (rw e at h))
]

pub owned_last :
    (id : ℤ) (rs : List TransferRow) (r : TransferRow)
    → id_is id r.id ≡ true
    → owned id (rs ++ r ∷ []) ≡ true
owned_last id [] r h = rw h refl
owned_last id (x ∷ rs) r h = elim (Bool-cases (id_is id x.id)) [
  | inl e ↦ rw e refl
  | inr e ↦ rw e (owned_last id rs r h)
]

module _ {A : Type 0} where
  pub All-keep_rows :
      (P : A → Type 0) (test : A → Bool) (rs : List A) → All P rs → All P (keep_rows test rs)
  unfolding keep_rows
  All-keep_rows P test [] h = tt
  All-keep_rows P test (r ∷ rs) (h, hs) =
      let rest = keep_rows test rs in
      let ok = All-keep_rows P test rs hs in
      if_cases (All P) (test r) (r ∷ rest) rest (λ e. (h, ok)) (λ e. ok)

  pub kept_rows : (test : A → Bool) (rs : List A) → All (λ r. test r ≡ true) (keep_rows test rs)
  unfolding keep_rows
  kept_rows test [] = tt
  kept_rows test (r ∷ rs) =
      let rest = keep_rows test rs in
      let ok = kept_rows test rs in
      if_cases (All (λ x. test x ≡ true)) (test r) (r ∷ rest) rest (λ e. (e, ok)) (λ e. ok)

  All-zip : (P Q : A → Type 0) (rs : List A) → All P rs → All Q rs → All (λ r. P r × Q r) rs
  All-zip P Q [] h k = tt
  All-zip P Q (r ∷ rs) (h, hs) (k, ks) = ((h, k), All-zip P Q rs hs ks)

  All-every : (P : A → Type 0) → ((r : A) → P r) → (rs : List A) → All P rs
  All-every P f [] = tt
  All-every P f (r ∷ rs) = (f r, All-every P f rs)

  pub keep_rows-none : (rs : List A) → keep_rows (λ r. false) rs ≡ []
  unfolding keep_rows
  keep_rows-none [] = refl
  keep_rows-none (r ∷ rs) = keep_rows-none rs

pub owned-keep_rows :
    (id : ℤ) (test : TransferRow → Bool) (rs : List TransferRow)
    → owned id rs ≡ true
    → All (λ (r : TransferRow). id_is id r.id ≡ true → test r ≡ true) rs
    → owned id (keep_rows test rs) ≡ true
unfolding keep_rows
owned-keep_rows id test [] h ok = h
owned-keep_rows id test (r ∷ rs) h (ok, oks) = elim (Bool-cases (id_is id r.id)) [
  | inl e ↦ rw (ok e) (rw e refl)
  | inr e ↦
      let rest = keep_rows test rs in
      let found = owned-keep_rows id test rs (rw e at h) oks in
      if_cases (λ xs. owned id xs ≡ true) (test r) (r ∷ rest) rest (λ f. rw e found) (λ f. found)
]

pub not_joined :
    (target : Text) (rs : List TransferRow) (p : PathRow)
    → is_joined target rs p ≡ false
    → All
        (λ (r : TransferRow).
          id_is p.transfer_id r.id ≡ true → not (text_eq r.target_id target) ≡ true)
        rs
unfolding is_joined
not_joined target [] p h = tt
not_joined target (r ∷ rs) p h = (λ e. ground arith, not_joined target rs p (ground arith))

pub targets-IsValid :
    (test : TargetInfo → Bool) (t : Tables) → IsValid t → IsValid (delete_targets test t)
unfolding delete_targets
targets-IsValid test t v = record { ids = v.ids; linked = v.linked }

pub replaced-IsValid :
    (info : TargetInfo) (t : Tables) → IsValid t → IsValid (replace_target info t)
unfolding replace_target delete_targets
replaced-IsValid info t v = record { ids = v.ids; linked = v.linked }

-- Without paths, the tables hold together.
pub pathless-IsValid :
    (test : TransferRow → Bool) (t : Tables)
    → IsValid t
    → IsValid (delete_paths (λ r. true) (delete_transfers test t))
unfolding delete_paths delete_transfers
pathless-IsValid test t v = record {
  ids =
      All-keep_rows (λ (r : TransferRow). r.id ≤ t.last_transfer)
        (λ (r : TransferRow). not (test r)) t.transfers v.ids;
  linked = rw (keep_rows-none t.transfer_paths) tt;
}

other_id :
    (p id : ℤ) (n : ℕ) → id_is p n ≡ true → not (same_int p id) ≡ true → not (id_is id n) ≡ true
unfolding id_is same_int
other_id (pos p) (pos id) n e h = ground arith
other_id (pos p) (negsuc id) n e h = refl
other_id (negsuc p) (pos id) n e h = absurd (ground arith)
other_id (negsuc p) (negsuc id) n e h = refl

pub deleted-IsValid :
    (id : ℤ) (t : Tables)
    → IsValid t
    → IsValid (
        delete_paths
          (λ (p : PathRow). same_int p.transfer_id id)
          (delete_transfers (λ (r : TransferRow). id_is id r.id) t))
unfolding delete_paths delete_transfers
deleted-IsValid id t v =
    let stays = λ (r : TransferRow). not (id_is id r.id) in
    let belongs = λ (p : PathRow). owned p.transfer_id t.transfers ≡ true in
    let kept = keep_rows (λ (p : PathRow). not (same_int p.transfer_id id)) t.transfer_paths in
    let both =
      All-zip belongs (λ (p : PathRow). not (same_int p.transfer_id id) ≡ true) kept
        (All-keep_rows belongs (λ (p : PathRow). not (same_int p.transfer_id id)) t.transfer_paths
          v.linked)
        (kept_rows (λ (p : PathRow). not (same_int p.transfer_id id)) t.transfer_paths) in
    record {
      ids = All-keep_rows (λ (r : TransferRow). r.id ≤ t.last_transfer) stays t.transfers v.ids;
      linked =
          All-map (λ (p : PathRow). belongs p × (not (same_int p.transfer_id id) ≡ true))
            (λ (p : PathRow). owned p.transfer_id (keep_rows stays t.transfers) ≡ true) kept
            (λ p. λ h. owned-keep_rows p.transfer_id stays t.transfers h.0 (
              All-every (λ (r : TransferRow). id_is p.transfer_id r.id ≡ true → stays r ≡ true)
                (λ r. λ e. other_id p.transfer_id id r.id e h.1) t.transfers))
            both;
    }

pub unjoined-IsValid :
    (target : Text) (t : Tables)
    → IsValid t
    → IsValid (
        delete_transfers (λ (r : TransferRow). text_eq r.target_id target) (delete_joined target t))
unfolding delete_paths delete_transfers delete_joined
unjoined-IsValid target t v =
    let stays = λ (r : TransferRow). not (text_eq r.target_id target) in
    let free = λ (p : PathRow). not (is_joined target t.transfers p) in
    let belongs = λ (p : PathRow). owned p.transfer_id t.transfers ≡ true in
    let kept = keep_rows free t.transfer_paths in
    let both =
      All-zip belongs (λ (p : PathRow). free p ≡ true) kept
        (All-keep_rows belongs free t.transfer_paths v.linked) (kept_rows free t.transfer_paths) in
    record {
      ids = All-keep_rows (λ (r : TransferRow). r.id ≤ t.last_transfer) stays t.transfers v.ids;
      linked =
          All-map (λ (p : PathRow). belongs p × (free p ≡ true))
            (λ (p : PathRow). owned p.transfer_id (keep_rows stays t.transfers) ≡ true) kept
            (λ p. λ h.
              owned-keep_rows p.transfer_id stays t.transfers h.0
                (not_joined target t.transfers p (ground arith)))
            both;
    }
