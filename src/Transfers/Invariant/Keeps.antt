-- ===== src/Transfers/Invariant/Keeps.antt =====
-- What an operation that registers nothing does to the parts that the invariant speaks of, and that
-- the invariant survives it.
use winpinator.Prelude.{
  ℕ, ◌≤◌, ◌≡◌, ◌≢◌, refl, sym, ◌∙◌, inl, inr, Text, text_eq, text_eq_iff, Option, none, some,
  Listed, Distinct, arith, Bool-cases, List, subst, ◌==◌, ==_iff,
}
use winpinator.Transfers.Types.{TransferOp, Effect}
use winpinator.Transfers.State.{Env, Manager, emit, set_op, set_transfers, get_transfer_info}
use winpinator.Transfers.Finish.{erase_op, finish_op, do_finish_transfer}
use winpinator.Transfers.Lookup.{
  Listed_of_erase, erase-Distinct, not-Listed-erase, find_id_congr, find_id_self,
}
use winpinator.Transfers.Invariant.{IsActive, IsValid}

pub record Keeps (m n : Manager) : Type 0 where
  pub listed : (r : Text) (p : ℕ) → Listed p (n.transfers r) → Listed p (m.transfers r)
  pub unique : (r : Text) → Distinct (m.transfers r) → Distinct (n.transfers r)
  pub same_id : (p : ℕ) → (n.ops p).id ≡ (m.ops p).id
  pub same_remote :
      (r : Text) (p : ℕ)
      → Listed p (n.transfers r)
      → (m.ops p).remote_id ≡ r
      → (n.ops p).remote_id ≡ r
  pub still_active :
      (r : Text) (p : ℕ)
      → Listed p (n.transfers r)
      → IsActive (m.ops p).status
      → IsActive (n.ops p).status
  pub ids_grow : m.last_id ≤ n.last_id
  pub same_store : n.next_op ≡ m.next_op
  pub jobs : (j p : ℕ) → n.crawl_jobs j ≡ some p → m.crawl_jobs j ≡ some p

pub Keeps-refl : (m : Manager) → Keeps m m
Keeps-refl m = record {
  listed = λ r p h. h;
  unique = λ r h. h;
  same_id = λ p. refl;
  same_remote = λ r p l h. h;
  still_active = λ r p l h. h;
  ids_grow = omega arith;
  same_store = refl;
  jobs = λ j p h. h;
}

pub Keeps-trans : (a b c : Manager) → Keeps a b → Keeps b c → Keeps a c
Keeps-trans a b c x y = record {
  listed = λ r p h. x.listed r p (y.listed r p h);
  unique = λ r h. y.unique r (x.unique r h);
  same_id = λ p. y.same_id p ∙ x.same_id p;
  same_remote = λ r p l h. y.same_remote r p l (x.same_remote r p (y.listed r p l) h);
  still_active = λ r p l h. y.still_active r p l (x.still_active r p (y.listed r p l) h);
  ids_grow = omega (arith, x.ids_grow, y.ids_grow);
  same_store = y.same_store ∙ x.same_store;
  jobs = λ j p h. x.jobs j p (y.jobs j p h);
}

pub Keeps-IsValid : (m n : Manager) → Keeps m n → IsValid m → IsValid n
Keeps-IsValid m n k v = record {
  owned = λ r p l. k.same_remote r p l (v.owned r p (k.listed r p l));
  stored = λ r p l. omega (arith, k.same_store, v.stored r p (k.listed r p l));
  active = λ r p l. k.still_active r p l (v.active r p (k.listed r p l));
  numbered =
      λ p h. omega (arith, k.same_id p, k.ids_grow, v.numbered p (omega (arith, k.same_store)));
  separate = λ p q h l e.
      v.separate p q (omega (arith, k.same_store)) (omega (arith, k.same_store))
        (sym (k.same_id p) ∙ e ∙ k.same_id q);
  distinct = λ r. k.unique r (v.distinct r);
  crawling = λ j p h. omega (arith, k.same_store, v.crawling j p (k.jobs j p h));
}

pub emit-Keeps : (e : Effect) (m : Manager) → Keeps m (emit e m)
unfolding emit
emit-Keeps e m = record {
  listed = λ r p h. h;
  unique = λ r h. h;
  same_id = λ p. refl;
  same_remote = λ r p l h. h;
  still_active = λ r p l h. h;
  ids_grow = omega arith;
  same_store = refl;
  jobs = λ j p h. h;
}

-- A write into an operation that keeps it active.
pub set_op-Keeps :
    (p : ℕ) (op : TransferOp) (m : Manager)
    → op.id ≡ (m.ops p).id
    → ((m.ops p).remote_id ≡ op.remote_id)
    → (IsActive (m.ops p).status → IsActive op.status)
    → Keeps m (set_op p op m)
unfolding set_op
set_op-Keeps p op m same_id same_remote active = record {
  listed = λ r q h. h;
  unique = λ r h. h;
  same_id = λ q. ground arith;
  same_remote = λ r q l h. ground arith;
  still_active = λ r q l h. elim (Bool-cases (q == p)) [
    | inl e ↦ rw e (active (rw ((==_iff q p).0 e) at h))
    | inr e ↦ rw e h
  ];
  ids_grow = omega arith;
  same_store = refl;
  jobs = λ j q h. h;
}

-- An operation that is in no list may end in any state.
pub set_op_unlisted-Keeps :
    (p : ℕ) (op : TransferOp) (m : Manager)
    → op.id ≡ (m.ops p).id
    → ((r : Text) → ¬ Listed p (m.transfers r))
    → Keeps m (set_op p op m)
unfolding set_op
set_op_unlisted-Keeps p op m same_id unlisted = record {
  listed = λ r q h. h;
  unique = λ r h. h;
  same_id = λ q. ground arith;
  same_remote = λ r q l h. elim (Bool-cases (q == p)) [
    | inl e ↦ absurd (unlisted r (rw ((==_iff q p).0 e) at l))
    | inr e ↦ rw e h
  ];
  still_active = λ r q l h. elim (Bool-cases (q == p)) [
    | inl e ↦ absurd (unlisted r (rw ((==_iff q p).0 e) at l))
    | inr e ↦ rw e h
  ];
  ids_grow = omega arith;
  same_store = refl;
  jobs = λ j q h. h;
}

-- A look-up in a changed list.
Listed-set_transfers :
    (r s : Text) (p : ℕ) (ps : List ℕ) (m : Manager)
    → ((q : ℕ) → Listed q ps → Listed q (m.transfers r))
    → Listed p ((set_transfers r ps m).transfers s)
    → Listed p (m.transfers s)
unfolding set_transfers
Listed-set_transfers r s p ps m sub h = elim (Bool-cases (text_eq s r)) [
  | inl e ↦ subst (λ t. Listed p (m.transfers t)) (sym ((text_eq_iff s r).0 e)) (sub p (rw e at h))
  | inr e ↦ rw e at h
]

-- The operation at `p` is finished whatever was written into it before, since it is in no list
-- afterwards.
module _ (env : Env) (r : Text) (i p : ℕ) (op : TransferOp) (m : Manager) where
  abbrev closed : Manager
  closed = finish_op env r i p (set_op p op m)

  closed-listed : (s : Text) (q : ℕ) → Listed q (closed.transfers s) → Listed q (m.transfers s)
  unfolding finish_op set_op
  closed-listed s q h =
      Listed-set_transfers r s q (erase_op p (m.transfers r)) m
        (λ a. Listed_of_erase p a (m.transfers r)) h

  closed-ne :
      IsValid m
      → Listed p (m.transfers r)
      → (s : Text) (q : ℕ) → Listed q (closed.transfers s)
      → q ≢ p
  unfolding finish_op set_op set_transfers
  closed-ne v here s q h e = elim (Bool-cases (text_eq s r)) [
    | inl same ↦ not-Listed-erase p (m.transfers r) (v.distinct r) (rw (e) at (rw same at h))
    | inr other ↦
        let there : Listed p (m.transfers s) = rw e at (rw other at h) in
        let same : s ≡ r = sym (v.owned s p there) ∙ v.owned r p here in
        cc ((text_eq_iff s r).1 same)
  ]

  pub closed-Keeps :
      IsValid m
      → Listed p (m.transfers r)
      → op.id ≡ (m.ops p).id
      → op.remote_id ≡ (m.ops p).remote_id
      → Keeps m (finish_op env r i p (set_op p op m))
  unfolding finish_op set_op
  closed-Keeps v here same_id same_remote = record {
    listed = closed-listed;
    unique = λ s d. elim (Bool-cases (text_eq s r)) [
      | inl e ↦ rw e (erase-Distinct p (m.transfers r) (v.distinct r))
      | inr e ↦ rw e d
    ];
    same_id = λ q. ground arith;
    same_remote = λ s q l h. ground (arith, closed-ne v here s q l);
    still_active = λ s q l h. elim (Bool-cases (q == p)) [
      | inl e ↦ absurd (closed-ne v here s q l ((==_iff q p).0 e))
      | inr e ↦ rw e h
    ];
    ids_grow = omega arith;
    same_store = refl;
    jobs = λ j q h. h;
  }

module _ (env : Env) (r : Text) (p : ℕ) (op : TransferOp) (m : Manager) where
  -- The look-up in `doFinishTransfer` finds the operation that its caller has written into.
  pub finish_found :
      IsValid m
      → Listed p (m.transfers r)
      → op.id ≡ (m.ops p).id
      → do_finish_transfer env r (m.ops p).id (set_op p op m)
        ≡ finish_op env r (m.ops p).id p (set_op p op m)
  unfolding do_finish_transfer get_transfer_info set_op
  finish_found v here same_id =
      rw
        (
          find_id_congr m.ops (set_op p op m).ops (λ q. ground arith) (m.ops p).id (m.transfers r)
              ∙ find_id_self m.ops p (m.transfers r) here
                  (λ q l e. v.separate q p (v.stored r q l) (v.stored r p here) e),
          do_finish_transfer,
        )
        refl

  -- So every caller that writes an end state into a listed operation and finishes it keeps the
  -- invariant.
  pub close-Keeps :
      IsValid m
      → Listed p (m.transfers r)
      → op.id ≡ (m.ops p).id
      → op.remote_id ≡ (m.ops p).remote_id
      → Keeps m (do_finish_transfer env r (m.ops p).id (set_op p op m))
  close-Keeps v here same_id same_remote =
      rw (finish_found v here same_id)
        (closed-Keeps env r (m.ops p).id p op m v here same_id same_remote)

-- The same of an operation that may hit a null pointer.
abbrev pub Kept : Manager → Option Manager → Type 0
Kept m none = Unit
Kept m (some n) = Keeps m n

pub Kept-of_Keeps : (m n : Manager) (o : Option Manager) → Keeps m n → Kept n o → Kept m o
Kept-of_Keeps m n none k h = tt
Kept-of_Keeps m n (some o) k h = Keeps-trans m n o k h

pub Kept-IsValid :
    (m n : Manager) (o : Option Manager) → Kept m o → IsValid m → o ≡ some n → IsValid n
Kept-IsValid m n none k v e = cc
Kept-IsValid m n (some o) k v e = Keeps-IsValid m n (subst (λ t. Kept m t) e k) v
