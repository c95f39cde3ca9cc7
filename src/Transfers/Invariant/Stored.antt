-- ===== src/Transfers/Invariant/Stored.antt =====
-- Ending an operation that may have left its list already: the sender's thread and the crawler hold
-- operations that somebody else can have finished meanwhile.
use winpinator.Prelude.{
  ℕ, ◌<◌, ◌≡◌, refl, sym, ◌∙◌, subst, inl, inr, Bool, Text, none, some, Listed, arith, Option-cases,
  ◌⊎◌,
}
use winpinator.Transfers.Types.{TransferOp}
use winpinator.Transfers.State.{Env, Manager, set_op, get_transfer_info, find_id}
use winpinator.Transfers.Finish.{do_finish_transfer, fail_op}
use winpinator.Transfers.Control.{set_status, end_outcoming_transfer}
use winpinator.Transfers.Lookup.{find_id-Listed, find_id-id, find_id_congr, find_id_self}
use winpinator.Transfers.Invariant.{IsValid}
use winpinator.Transfers.Invariant.Keeps.{Keeps, set_op_unlisted-Keeps, close-Keeps}

module _ (env : Env) (r : Text) (p : ℕ) (op : TransferOp) (m : Manager) where
  -- The look-up of a stored operation finds it, or it is in no list at all.
  stored_cases :
      IsValid m
      → p < m.next_op
      → (m.ops p).remote_id ≡ r
      → Listed p (m.transfers r)
        ⊎ ((find_id m.ops (m.ops p).id (m.transfers r) ≡ none)
            × ((s : Text) → ¬ Listed p (m.transfers s)))
  stored_cases v stored owner = elim (Option-cases (find_id m.ops (m.ops p).id (m.transfers r))) [
    | inl gone ↦ inr (gone, λ s l. here s (v.owned s p l) l gone)
    | inr (q, e) ↦ inl (found q e)
  ]
    where
      found :
          (q : ℕ) → find_id m.ops (m.ops p).id (m.transfers r) ≡ some q → Listed p (m.transfers r)
      found q e =
          let l = find_id-Listed m.ops (m.ops p).id q (m.transfers r) e in
          subst (λ x. Listed x (m.transfers r))
            (v.separate q p (v.stored r q l) stored
              (find_id-id m.ops (m.ops p).id q (m.transfers r) e))
            l

      here :
          (s : Text)
          → (m.ops p).remote_id ≡ s
          → Listed p (m.transfers s)
          → find_id m.ops (m.ops p).id (m.transfers r) ≡ none
          → ⊥
      here s owned l gone =
          let there : Listed p (m.transfers r) =
            subst (λ t. Listed p (m.transfers t)) (sym owned ∙ owner) l in
          cc (
            find_id_self m.ops p (m.transfers r) there
              (λ q h e. v.separate q p (v.stored r q h) stored e))

  pub close_stored-Keeps :
      IsValid m
      → p < m.next_op
      → (m.ops p).remote_id ≡ r
      → op.id ≡ (m.ops p).id
      → op.remote_id ≡ (m.ops p).remote_id
      → Keeps m (do_finish_transfer env r (m.ops p).id (set_op p op m))
  unfolding do_finish_transfer get_transfer_info set_op
  close_stored-Keeps v stored owner same_id same_remote = elim (stored_cases v stored owner) [
    | inl here ↦ close-Keeps env r p op m v here same_id same_remote
    | inr (gone, unlisted) ↦
        rw
          (
            find_id_congr m.ops (set_op p op m).ops (λ q. ground arith) (m.ops p).id (m.transfers r)
                ∙ gone,
            do_finish_transfer,
          )
          (set_op_unlisted-Keeps p op m same_id unlisted)
  ]

-- The end of a sender's thread.
pub end_outcoming_transfer-Keeps :
    (env : Env) (r : Text) (p : ℕ) (result : Bool) (m : Manager)
    → IsValid m
    → p < m.next_op
    → (m.ops p).remote_id ≡ r
    → Keeps m (end_outcoming_transfer env r p result m)
unfolding end_outcoming_transfer set_status
end_outcoming_transfer-Keeps env r p result m v stored owner =
    close_stored-Keeps env r p _ m v stored owner refl refl

pub fail_op_stored-Keeps :
    (env : Env) (p : ℕ) (m : Manager) → IsValid m → p < m.next_op → Keeps m (fail_op env p m).1
unfolding fail_op
fail_op_stored-Keeps env p m v stored =
    close_stored-Keeps env (m.ops p).remote_id p _ m v stored refl refl refl
