-- ===== src/Transfers/Invariant/Registering.antt =====
-- Registering an operation keeps the invariant, and so do the sender's operations.
use winpinator.Prelude.{
  ℕ, ◌+◌, ◌<◌, ◌≡◌, ◌≢◌, refl, sym, ◌∙◌, ap, subst, inl, inr, Bool, true, false, Text, Option, none,
  some, Listed, Listed-snoc, Distinct, snoc-Distinct, arith, Bool-cases, text_eq, text_eq_iff, not,
  if◌then◌else◌, ◌⊎◌,
}
use winpinator.Transfers.Types.{TransferOp, toast_accept, add_transfer}
use winpinator.Transfers.State.{Env, Manager, emit, set_op}
use winpinator.Transfers.Control.{do_reply_allow_transfer}
use winpinator.Transfers.Register.{
  prepare_transfer, registered_op, starts_alone, send_notifications, push_transfer,
  register_transfer, register_again,
}
use winpinator.Transfers.Invariant.{IsActive, IsValid}
use winpinator.Transfers.Invariant.Keeps.{
  Keeps, Kept, Keeps-refl, Keeps-trans, Keeps-IsValid, Kept-of_Keeps, emit-Keeps, set_op-Keeps,
}
use winpinator.Transfers.Invariant.Control.{do_reply_allow_transfer-Kept}

module _ (r : Text) (op : TransferOp) (m : Manager) where
  abbrev pushed : Manager
  pushed = push_transfer r op m

  pushed-Listed :
      (s : Text) (p : ℕ)
      → Listed p (pushed.transfers s)
      → Listed p (m.transfers s) ⊎ ((p ≡ m.next_op) × (s ≡ r))
  unfolding push_transfer
  pushed-Listed s p h = elim (Bool-cases (text_eq s r)) [
    | inl e ↦ elim (Listed-snoc p m.next_op (m.transfers r) (rw e at h)) [
      | inl l ↦ inl (subst (λ t. Listed p (m.transfers t)) (sym ((text_eq_iff s r).0 e)) l)
      | inr q ↦ inr (sym q, (text_eq_iff s r).0 e)
    ]
    | inr e ↦ inl (rw e at h)
  ]

  pushed-new : pushed.ops m.next_op ≡ op
  unfolding push_transfer
  pushed-new = ground arith

  pushed-old : (p : ℕ) → p < m.next_op → pushed.ops p ≡ m.ops p
  unfolding push_transfer
  pushed-old p h = ground arith

  pushed_store : (p : ℕ) → p < pushed.next_op → (p < m.next_op) ⊎ (p ≡ m.next_op)
  unfolding push_transfer
  pushed_store p h = omega arith

  pushed_next : pushed.next_op ≡ m.next_op + 1
  unfolding push_transfer
  pushed_next = refl

  pushed-Distinct : IsValid m → (s : Text) → Distinct (pushed.transfers s)
  unfolding push_transfer
  pushed-Distinct v s = elim (Bool-cases (text_eq s r)) [
    | inl e ↦ rw e (
        snoc-Distinct m.next_op (m.transfers r) (v.distinct r)
          (λ l. absurd (omega (arith, v.stored r m.next_op l))))
    | inr e ↦ rw e (v.distinct s)
  ]

  -- A fact that holds of the new operation and of the operations of a list holds of a new list.
  pushed_case :
      (P : TransferOp → Text → Type 0)
      → IsValid m
      → P op r
      → ((s : Text) (p : ℕ) → Listed p (m.transfers s) → P (m.ops p) s)
      → (s : Text) (p : ℕ) → Listed p (pushed.transfers s)
      → P (pushed.ops p) s
  pushed_case P v new old s p h = elim (pushed-Listed s p h) [
    | inl l ↦ subst (λ o. P o s) (sym (pushed-old p (v.stored s p l))) (old s p l)
    | inr (at, here) ↦ rw (at, here) (subst (λ o. P o r) (sym pushed-new) new)
  ]

  pushed_id :
      (p : ℕ)
      → p < pushed.next_op
      → ((p < m.next_op) × ((pushed.ops p).id ≡ (m.ops p).id))
        ⊎ ((p ≡ m.next_op) × ((pushed.ops p).id ≡ op.id))
  pushed_id p h = elim (pushed_store p h) [
    | inl l ↦ inl (l, ap (λ (o : TransferOp). o.id) (pushed-old p l))
    | inr e ↦ inr (e, rw e (ap (λ (o : TransferOp). o.id) pushed-new))
  ]

  pushed_crawling : IsValid m → (j p : ℕ) → pushed.crawl_jobs j ≡ some p → p < pushed.next_op
  unfolding push_transfer
  pushed_crawling v j p h = omega (arith, v.crawling j p h)

  pushed_last : pushed.last_id ≡ m.last_id
  unfolding push_transfer
  pushed_last = refl

  pub push_transfer-IsValid :
      IsValid m
      → IsActive op.status
      → op.remote_id ≡ r
      → op.id < m.last_id
      → ((p : ℕ) → p < m.next_op → (m.ops p).id ≢ op.id)
      → IsValid (push_transfer r op m)
  push_transfer-IsValid v active owner numbered fresh = record {
    owned = pushed_case (λ o s. o.remote_id ≡ s) v owner v.owned;
    stored = λ s p h. elim (pushed-Listed s p h) [
      | inl l ↦ omega (arith, pushed_next, v.stored s p l)
      | inr (at, here) ↦ omega (arith, pushed_next)
    ];
    active = pushed_case (λ o s. IsActive o.status) v active v.active;
    numbered = λ p h. elim (pushed_id p h) [
      | inl (l, e) ↦ omega (arith, pushed_last, v.numbered p l)
      | inr (at, e) ↦ omega (arith, pushed_last)
    ];
    separate = λ p q h k e. elim (pushed_id p h) [
      | inl (l, x) ↦ elim (pushed_id q k) [
        | inl (l', y) ↦ v.separate p q l l' (sym x ∙ e ∙ y)
        | inr (_, y) ↦ absurd (fresh p l (sym x ∙ e ∙ y))
      ]
      | inr (at, x) ↦ elim (pushed_id q k) [
        | inl (l', y) ↦ absurd (fresh q l' (sym y ∙ sym e ∙ x))
        | inr (at', y) ↦ at ∙ sym at'
      ]
    ];
    distinct = pushed-Distinct v;
    crawling = pushed_crawling v;
  }

-- The id that `registerTransfer` gives out.
number-Keeps : (m : Manager) → Keeps m (record m { last_id = m.last_id + 1 })
number-Keeps m = record {
  listed = λ r p h. h;
  unique = λ r h. h;
  same_id = λ p. refl;
  same_remote = λ r p l h. h;
  still_active = λ r p l h. h;
  ids_grow = omega arith;
  same_store = refl;
  jobs = λ j p h. h;
}

notify-Keeps :
    (r : Text) (op : TransferOp) (b : Bool) (m : Manager) → Keeps m (send_notifications r op b m)
unfolding send_notifications
notify-Keeps r op b m =
    elim op.outcoming as (λ x. Keeps m (if x then m else emit (toast_accept r op b) m)) [
      | true ↦ Keeps-refl m
      | false ↦ emit-Keeps (toast_accept r op b) m
    ]

announced-Kept :
    (r : Text) (f : Manager → TransferOp) (m : Manager) (replied : Option Manager)
    → Kept m replied
    → Kept m (elim replied [ none ↦ none | some done ↦ some (emit (add_transfer r (f done)) done) ])
announced-Kept r f m none k = tt
announced-Kept r f m (some done) k = Keeps-trans m done _ k (emit-Keeps _ done)

-- The answer that an immediate start gives itself.
replied-Kept :
    (env : Env) (r : Text) (i : ℕ) (autostart : Bool) (m : Manager)
    → IsValid m
    → Kept m (if autostart then do_reply_allow_transfer env r i true m else some m)
replied-Kept env r i true m v = do_reply_allow_transfer-Kept env r i true m v
replied-Kept env r i false m v = Keeps-refl m

module _ (env : Env) (r : Text) (op : TransferOp) (m : Manager) where
  -- The state after the push, before the answer.
  abbrev pub registered : Manager
  registered =
      let transfer = registered_op env r op m in
      push_transfer r transfer (
        send_notifications r transfer (not (starts_alone m transfer))
          (record m { last_id = m.last_id + 1 }))

  registered-Keeps : Keeps m (
      send_notifications r
        (registered_op env r op m)
        (not (starts_alone m (registered_op env r op m)))
        (record m { last_id = m.last_id + 1 }))
  registered-Keeps = Keeps-trans m _ _ (number-Keeps m) (notify-Keeps r _ _ _)

  registered_id : (registered_op env r op m).id ≡ m.last_id
  unfolding registered_op prepare_transfer
  registered_id = refl

  pub registered-IsValid : IsValid m → IsActive op.status → IsValid registered
  unfolding registered_op prepare_transfer
  registered-IsValid v active =
      let told = registered-Keeps in
      let counted =
        notify-Keeps r (registered_op env r op m) (not (starts_alone m (registered_op env r op m)))
          (record m { last_id = m.last_id + 1 }) in
      push_transfer-IsValid r (registered_op env r op m) _ (Keeps-IsValid m _ told v) active refl
        (omega (arith, counted.ids_grow, registered_id))
        (λ p h e. absurd (
          omega
            (arith, v.numbered p (omega (arith, told.same_store)), told.same_id p, registered_id)))

  register_transfer-Kept :
      IsValid m → IsActive op.status → Kept registered (register_transfer env r op m)
  unfolding register_transfer
  register_transfer-Kept v active =
      announced-Kept r (λ _. registered_op env r op m) registered _
        (replied-Kept env r _ (starts_alone m (registered_op env r op m)) registered
          (registered-IsValid v active))

  registered_store : registered.next_op ≡ m.next_op + 1
  unfolding push_transfer
  registered_store = omega (arith, registered-Keeps.same_store)

  -- A first try with an operation in an active state keeps the invariant, whether or not the
  -- transfer starts at once, and stores one operation.
  pub register_transfer-IsValid :
      (n : Manager)
      → IsValid m
      → IsActive op.status
      → register_transfer env r op m ≡ some n
      → IsValid n × (n.next_op ≡ m.next_op + 1)
  register_transfer-IsValid n v active e =
      let kept : Keeps registered n =
        subst (λ o. Kept registered o) e (register_transfer-Kept v active) in
      (
        Keeps-IsValid registered n kept (registered-IsValid v active),
        kept.same_store ∙ registered_store,
      )

-- A second request for a listed transfer.
pub register_again-Kept :
    (env : Env) (r : Text) (p : ℕ) (m : Manager)
    → IsValid m
    → Listed p (m.transfers r)
    → Kept m (register_again env r p m)
unfolding register_again prepare_transfer
register_again-Kept env r p m v here =
    let transfer = prepare_transfer env m.output_path r (m.ops p) in
    let auto = starts_alone m transfer in
    let written = set_op-Keeps p transfer m refl (v.owned r p here) (λ a. a) in
    let told =
      Keeps-trans m _ _ written (notify-Keeps r transfer (not auto) (set_op p transfer m)) in
    announced-Kept r (λ done. done.ops p) m _
      (Kept-of_Keeps m _ _ told (replied-Kept env r transfer.id auto _ (Keeps-IsValid m _ told v)))
