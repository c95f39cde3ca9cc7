-- ===== src/Transfers/Invariant/Failing.antt =====
-- `failOp` and `failAll` keep the invariant, and `failAll` ends with every transfer of the remote
-- failed and gone.
use winpinator.Prelude.{
  ℕ, ◌≡◌, ◌≢◌, refl, sym, ap, ◌∙◌, subst, inl, inr, List, [], ◌∷◌, Text, some, Listed, length,
  arith, Bool-cases, text_eq_refl, text_eq_iff,
}
use winpinator.Transfers.Types.{OpStatus, TransferOp}
use winpinator.Transfers.State.{Env, Remote, Manager, set_op, set_transfers}
use winpinator.Transfers.Finish.{
  erase_op, finish_op, do_finish_transfer, fail_op, fail_all_name, fail_all_loop, fail_all,
}
use winpinator.Transfers.Invariant.{IsValid}
use winpinator.Transfers.Invariant.Keeps.{Keeps, Keeps-IsValid, close-Keeps, finish_found}

abbrev marked : ℕ → Manager → Manager
marked p m = set_op p (record (m.ops p) { status = OpStatus.failed }) m

pub fail_op-Keeps :
    (env : Env) (r : Text) (p : ℕ) (m : Manager)
    → IsValid m
    → Listed p (m.transfers r)
    → Keeps m (fail_op env p m).1
unfolding fail_op
fail_op-Keeps env r p m v here =
    subst (λ s. Keeps m (do_finish_transfer env s (m.ops p).id (marked p m)))
      (sym (v.owned r p here))
      (close-Keeps env r p (record (m.ops p) { status = OpStatus.failed }) m v here refl refl)

-- What it does to the state, for the first operation of a list.
fail_first :
    (env : Env) (r : Text) (p : ℕ) (ps : List ℕ) (m : Manager)
    → IsValid m
    → m.transfers r ≡ p ∷ ps
    → (fail_op env p m).1 ≡ finish_op env r (m.ops p).id p (marked p m)
unfolding fail_op
fail_first env r p ps m v e =
    let here : Listed p (m.transfers r) = rw e (inl refl) in
    ap (λ s. do_finish_transfer env s (m.ops p).id (marked p m)) (v.owned r p here)
    ∙ finish_found env r p (record (m.ops p) { status = OpStatus.failed }) m v here refl

module _ (env : Env) (r : Text) (p : ℕ) (ps : List ℕ) (m : Manager) (v : IsValid m)
    (e : m.transfers r ≡ p ∷ ps) where
  fail_first_rest : (fail_op env p m).1.transfers r ≡ ps
  unfolding finish_op set_transfers set_op erase_op
  fail_first_rest = rw (fail_first env r p ps m v e) (rw (text_eq_refl r, e) (ground arith))

  fail_first_status : ((fail_op env p m).1.ops p).status ≡ OpStatus.failed
  unfolding finish_op set_transfers set_op
  fail_first_status = rw (fail_first env r p ps m v e) (ground arith)

  fail_first_others : (q : ℕ) → q ≢ p → (fail_op env p m).1.ops q ≡ m.ops q
  unfolding finish_op set_transfers set_op
  fail_first_others q ne = rw (fail_first env r p ps m v e) (ground arith)

  fail_first_lists : (s : Text) → s ≢ r → (fail_op env p m).1.transfers s ≡ m.transfers s
  unfolding finish_op set_transfers set_op
  fail_first_lists s ne = rw (fail_first env r p ps m v e) (ground (arith, text_eq_iff s r))

-- What `failAll` of the remote `r` has done when it took `m` to `n`.
pub record AllFailed (r : Text) (m n : Manager) : Type 0 where
  pub emptied : n.transfers r ≡ []
  pub failed : (p : ℕ) → Listed p (m.transfers r) → (n.ops p).status ≡ OpStatus.failed
  pub others : (s : Text) → s ≢ r → n.transfers s ≡ m.transfers s
  pub untouched : (p : ℕ) → ¬ Listed p (m.transfers r) → n.ops p ≡ m.ops p
  pub valid : IsValid n

AllFailed-nil : (r : Text) (m : Manager) → IsValid m → m.transfers r ≡ [] → AllFailed r m m
AllFailed-nil r m v e = record {
  emptied = e;
  failed = λ p h. absurd (subst (Listed p) e h);
  others = λ s ne. refl;
  untouched = λ p h. refl;
  valid = v;
}

module _ (env : Env) (r : Text) (q : ℕ) (qs : List ℕ) (m n : Manager) (v : IsValid m)
    (e : m.transfers r ≡ q ∷ qs) where
  abbrev next : Manager
  next = (fail_op env q m).1

  first_valid : IsValid next
  first_valid = Keeps-IsValid m next (fail_op-Keeps env r q m v (rw e (inl refl))) v

  first_gone : ¬ Listed q (next.transfers r)
  first_gone h = (rw e at (v.distinct r)).0 (subst (Listed q) (fail_first_rest env r q qs m v e) h)

  AllFailed-cons : AllFailed r next n → AllFailed r m n
  AllFailed-cons done = record {
    emptied = done.emptied;
    failed = λ p h. failed_at p (subst (Listed p) e h);
    others = λ s ne. done.others s ne ∙ fail_first_lists env r q qs m v e s ne;
    untouched = λ p h.
        done.untouched p
          (λ l. h (rw e (inr (subst (Listed p) (fail_first_rest env r q qs m v e) l))))
        ∙ fail_first_others env r q qs m v e p (λ same. h (rw e (inl (sym same))));
    valid = done.valid;
  }
    where
      failed_at : (p : ℕ) → Listed p (q ∷ qs) → (n.ops p).status ≡ OpStatus.failed
      failed_at p (inl same) = rw (← same) (
          ap (λ (o : TransferOp). o.status) (done.untouched q first_gone)
          ∙ fail_first_status env r q qs m v e)
      failed_at p (inr later) =
          done.failed p (subst (Listed p) (sym (fail_first_rest env r q qs m v e)) later)

module _ (env : Env) (r : Text) (info : Remote) (known : env.remote r ≡ some info) where
  name_found : (op : TransferOp) (c : Text) → (name : Text) × (fail_all_name env r op c ≡ some name)
  unfolding fail_all_name
  name_found op [] = elim (Bool-cases op.outcoming) [
    | inl e ↦ (info.full_name, rw (e, known) refl)
    | inr e ↦ (op.sender_name, rw e refl)
  ]
  name_found op (c ∷ cs) = (c ∷ cs, refl)

  fail_all_loop-AllFailed :
      (qs : List ℕ) (name : Text) (m : Manager)
      → IsValid m
      → m.transfers r ≡ qs
      → (last : Text) × (n : Manager) × (fail_all_loop env r (length qs) name m ≡ some (last, n))
        × AllFailed r m n
  unfolding fail_all_loop
  fail_all_loop-AllFailed [] name m v e = (name, m, refl, AllFailed-nil r m v e)
  fail_all_loop-AllFailed (q ∷ qs) name m v e =
      let after = (fail_op env q m).1 in
      let (name', found) = name_found (after.ops q) name in
      let (last, n, run, done) =
        fail_all_loop-AllFailed qs name' after (first_valid env r q qs m after v e)
          (fail_first_rest env r q qs m v e) in
      (
        last,
        n,
        rw (e, fail_all_loop) (rw (found, fail_all_loop) run),
        AllFailed-cons env r q qs m n v e done,
      )

  -- When the connection to a known host is lost, the loop of `failAll` ends: every transfer that was
  -- listed for the host is marked as failed and the host's list is empty, while the lists of the
  -- other hosts, all other operations and the invariant stay as they were. No null pointer is met.
  pub fail_all-AllFailed :
      (m : Manager) → IsValid m → (n : Manager) × (fail_all env r m ≡ some n) × AllFailed r m n
  unfolding fail_all
  fail_all-AllFailed m v =
      let (last, n, run, done) = fail_all_loop-AllFailed (m.transfers r) [] m v refl in
      (n, rw (run, fail_all) refl, done)
