-- ===== src/Discovery/Keeping.antt =====
-- What every record and every round of events keeps, every packet keeps: induction over the loops of
-- src/zeroconf/mdns_client.cpp, once for all invariants.
use winpinator.Prelude.{
  ℕ, zero, suc, ◌≡◌, ◌≢◌, inl, inr, not, List, [], ◌∷◌, Text, text_eq, text_eq_iff, text_eq_refl,
  text_eq_ne, ne_of_text_eq, Option, All, length, Bool-cases, list_cases, if_cases, if◌then◌else◌,
}
use winpinator.Discovery.Client.{
  Record, removed, Client, put, ignored_name, tell, announce, process_added, tell_removed,
  process_events, query_callback, take_records, receive_packet, receive_packets,
}

pub put_self {ℓ} : {A : Type ℓ} (k : Text) (v : Option A) (m : Text → Option A) → put k v m k ≡ v
unfolding put
put_self k v m = rw (text_eq_refl k)

pub put_other {ℓ} :
    {A : Type ℓ} (k j : Text) (v : Option A) (m : Text → Option A) → j ≢ k → put k v m j ≡ m j
unfolding put
put_other k j v m ne = rw (text_eq_ne j k ne)

-- A text is the one or another.
pub put_cases {ℓ κ} :
    {A : Type ℓ} (P : Option A → Type κ) (k j : Text) (v : Option A) (m : Text → Option A)
    → (j ≡ k → P v)
    → (j ≢ k → P (m j))
    → P (put k v m j)
put_cases P k j v m f g = elim (Bool-cases (text_eq j k)) [
  | inl e ↦ let same = (text_eq_iff j k).0 e in rw (same, put_self k v m) (f same)
  | inr e ↦ let other = ne_of_text_eq j k e in rw (put_other k j v m other) (g other)
]

module _ {κ} (P : Client → Type κ) where
  -- What the two loops of `processEvents` may use.
  pub record Rounds : Type κ where
    pub announces :
        (name : Text) (names : List Text) (c : Client)
        → c.added_services ≡ name ∷ names
        → P c
        → P (announce name (record c { added_services = names }))
    pub removes : (name : Text) (c : Client) → P c → P (tell (removed name) c)
    pub clears : (c : Client) → P c → P (record c { removed_services = [] })

  module _ (rounds : Rounds) where
    process_added-keeps : (n : ℕ) (c : Client) → P c → P (process_added n c)
    unfolding process_added
    process_added-keeps zero c h = h
    process_added-keeps (suc n) c h = elim (list_cases c.added_services) [
      | inl e ↦ rw (e, process_added) h
      | inr (name, names, e) ↦
          rw (e, process_added)
            (process_added-keeps n (announce name (record c { added_services = names }))
              (rounds.announces name names c e h))
    ]

    tell_removed-keeps : (names : List Text) (c : Client) → P c → P (tell_removed names c)
    unfolding tell_removed
    tell_removed-keeps [] c h = rounds.clears c h
    tell_removed-keeps (name ∷ names) c h =
        tell_removed-keeps names
          (if not (text_eq name (ignored_name c)) then tell (removed name) c else c)
          (if_cases P (not (text_eq name (ignored_name c))) (tell (removed name) c) c
            (λ e. rounds.removes name c h) (λ e. h))

    pub process_events-keeps : (c : Client) → P c → P (process_events c)
    unfolding process_events
    process_events-keeps c h =
        let d = process_added (length c.added_services) c in
        tell_removed-keeps d.removed_services d (process_added-keeps (length c.added_services) c h)

    module _ {λ'} (Ok : Record → Type λ')
        (records : (r : Record) (c : Client) → Ok r → P c → P (query_callback r c)) where
      pub take_records-keeps :
          (rs : List Record) (c : Client) → All Ok rs → P c → P (take_records rs c)
      unfolding take_records
      take_records-keeps [] c ok h = h
      take_records-keeps (r ∷ rs) c (ok, oks) h =
          take_records-keeps rs (query_callback r c) oks (records r c ok h)

      pub receive_packets-keeps :
          (ps : List (List Record)) (c : Client) → All (All Ok) ps → P c → P (receive_packets ps c)
      unfolding receive_packets receive_packet
      receive_packets-keeps [] c ok h = h
      receive_packets-keeps (p ∷ ps) c (ok, oks) h =
          receive_packets-keeps ps (process_events (take_records p c)) oks
            (process_events-keeps (take_records p c) (take_records-keeps p c ok h))
