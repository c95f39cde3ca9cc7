-- ===== src/Transfers/Lookup.antt =====
-- The lists of addresses in `TransferManager`: looking an id up, and erasing an address.
use winpinator.Prelude.{
  ℕ, ◌≡◌, refl, inl, inr, ◌≢◌, List, [], ◌∷◌, some, arith, ◌==◌, ==_iff, Bool-cases, false, Listed,
  Distinct, sym, ◌∙◌,
}
use winpinator.Transfers.Types.{TransferOp}
use winpinator.Transfers.State.{find_id, find_timestamp}
use winpinator.Transfers.Finish.{erase_op}

Listed-cons_map :
    (x q : ℕ) (ps qs : List ℕ) → (Listed q ps → Listed q qs) → Listed q (x ∷ ps) → Listed q (x ∷ qs)
Listed-cons_map x q ps qs f (inl e) = inl e
Listed-cons_map x q ps qs f (inr h) = inr (f h)

pub Listed_of_erase : (p q : ℕ) (ps : List ℕ) → Listed q (erase_op p ps) → Listed q ps
unfolding erase_op
Listed_of_erase p q [] h = h
Listed_of_erase p q (x ∷ ps) h = elim (Bool-cases (x == p)) [
  | inl e ↦ inr (rw e at h)
  | inr e ↦ Listed-cons_map x q (erase_op p ps) ps (Listed_of_erase p q ps) (rw e at h)
]

pub erase-Distinct : (p : ℕ) (ps : List ℕ) → Distinct ps → Distinct (erase_op p ps)
unfolding erase_op
erase-Distinct p [] d = tt
erase-Distinct p (x ∷ ps) d = elim (Bool-cases (x == p)) [
  | inl e ↦ rw e d.1
  | inr e ↦ rw e (λ h. d.0 (Listed_of_erase p x ps h), erase-Distinct p ps d.1)
]

pub not-Listed-erase : (p : ℕ) (ps : List ℕ) → Distinct ps → ¬ Listed p (erase_op p ps)
unfolding erase_op
not-Listed-erase p [] d h = h
not-Listed-erase p (x ∷ ps) d h = elim (Bool-cases (x == p)) [
  | inl e ↦ (rw ((==_iff x p).0 e) at d.0) (rw e at h)
  | inr e ↦ rest e (not-Listed-erase p ps d.1) (rw e at h)
]
  where
    rest : (x == p) ≡ false → ¬ Listed p (erase_op p ps) → ¬ Listed p (x ∷ erase_op p ps)
    rest miss gone (inl e) = ground arith
    rest miss gone (inr h) = gone h

-- Only `p` goes.
pub Listed-erase : (p q : ℕ) (ps : List ℕ) → q ≢ p → Listed q ps → Listed q (erase_op p ps)
unfolding erase_op
Listed-erase p q [] ne h = h
Listed-erase p q (x ∷ ps) ne (inl e) = elim (Bool-cases (x == p)) [
  | inl hit ↦ absurd (ne (sym e ∙ (==_iff x p).0 hit))
  | inr miss ↦ rw miss (inl e)
]
Listed-erase p q (x ∷ ps) ne (inr h) = elim (Bool-cases (x == p)) [
  | inl hit ↦ rw hit h
  | inr miss ↦ rw miss (inr (Listed-erase p q ps ne h))
]

module _ (ops : ℕ → TransferOp) where
  pub find_id-Listed : (i p : ℕ) (ps : List ℕ) → find_id ops i ps ≡ some p → Listed p ps
  unfolding find_id
  find_id-Listed i p [] h = cc
  find_id-Listed i p (x ∷ ps) h = ground (arith, find_id-Listed i p ps)

  pub find_id-id : (i p : ℕ) (ps : List ℕ) → find_id ops i ps ≡ some p → (ops p).id ≡ i
  unfolding find_id
  find_id-id i p [] h = cc
  find_id-id i p (x ∷ ps) h = ground (arith, find_id-id i p ps)

  pub find_id_self :
      (p : ℕ) (ps : List ℕ)
      → Listed p ps
      → ((q : ℕ) → Listed q ps → (ops q).id ≡ (ops p).id → q ≡ p)
      → find_id ops (ops p).id ps ≡ some p
  unfolding find_id
  find_id_self p [] h u = absurd h
  find_id_self p (x ∷ ps) (inl e) u = rw e (ground arith)
  find_id_self p (x ∷ ps) (inr h) u = elim (Bool-cases ((ops x).id == (ops p).id)) [
    | inl e ↦ rw (e, u x (inl refl) ((==_iff _ _).0 e)) refl
    | inr e ↦ rw e (find_id_self p ps h (λ q l. u q (inr l)))
  ]

  pub find_timestamp-Listed :
      (t p : ℕ) (ps : List ℕ) → find_timestamp ops t ps ≡ some p → Listed p ps
  unfolding find_timestamp
  find_timestamp-Listed t p [] h = cc
  find_timestamp-Listed t p (x ∷ ps) h = ground (arith, find_timestamp-Listed t p ps)

-- The look-up by id reads nothing else of the operations.
pub find_id_congr :
    (ops ops' : ℕ → TransferOp)
    → ((q : ℕ) → (ops' q).id ≡ (ops q).id)
    → (i : ℕ) (ps : List ℕ) → find_id ops' i ps ≡ find_id ops i ps
unfolding find_id
find_id_congr ops ops' same i [] = refl
find_id_congr ops ops' same i (x ∷ ps) = ground (arith, same x, find_id_congr ops ops' same i ps)
