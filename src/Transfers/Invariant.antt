-- ===== src/Transfers/Invariant.antt =====
-- The invariant of `TransferManager` and its preservation by every operation.
pub mod Keeps
pub mod Control
pub mod Failing
pub mod Stored
pub mod Registering
pub mod Outgoing
use winpinator.Prelude.{
  ℕ, ◌+◌, ◌<◌, ◌≡◌, ◌≢◌, ◌⊎◌, inl, inr, Text, Option, none, some, Listed, Distinct,
}
use winpinator.Transfers.Types.{OpStatus, TransferOp}
use winpinator.Transfers.State.{Manager}

-- The states of an operation that is still listed.
pub data IsActive : OpStatus → Type 0 where
  is_calculating : IsActive OpStatus.calculating
  is_waiting : IsActive OpStatus.waiting_permission
  is_transferring : IsActive OpStatus.transferring
  is_paused : IsActive OpStatus.paused

-- Every listed operation is stored, belongs to the remote of its list and is still active; every
-- stored operation has an id of its own that has been given out; no list holds an address twice;
-- and the crawl jobs hold addresses of stored operations.
pub record IsValid (m : Manager) : Type 0 where
  pub owned : (r : Text) (p : ℕ) → Listed p (m.transfers r) → (m.ops p).remote_id ≡ r
  pub stored : (r : Text) (p : ℕ) → Listed p (m.transfers r) → p < m.next_op
  pub active : (r : Text) (p : ℕ) → Listed p (m.transfers r) → IsActive (m.ops p).status
  pub numbered : (p : ℕ) → p < m.next_op → (m.ops p).id < m.last_id
  pub separate : (p q : ℕ) → p < m.next_op → q < m.next_op → (m.ops p).id ≡ (m.ops q).id → p ≡ q
  pub distinct : (r : Text) → Distinct (m.transfers r)
  pub crawling : (j p : ℕ) → m.crawl_jobs j ≡ some p → p < m.next_op
