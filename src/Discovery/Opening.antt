-- ===== src/Discovery/Opening.antt =====
-- The loops of src/zeroconf/mdns_client.cpp and src/zeroconf/mdns_service.cpp over the adapters, against
-- a description without a loop: the public addresses of the adapters that are used, in their order.
use winpinator.Prelude.{
  ℕ, zero, suc, ◌≤◌, ◌≡◌, refl, sym, ap, ◌∙◌, inl, inr, Bool, true, false, not, ◌&&◌, List, [], ◌∷◌,
  ◌++◌, text_eq, Option, none, some, length, length-append, take, ltb, arith, if_cases,
  if◌then◌else◌, Bool-cases, Option-cases,
}
use mathlib.Core.List.{append-nil, append_assoc}
use winpinator.Discovery.Sockets.{
  Address, v4, v6, other_family, Unicast, Adapter, Reply, adapters, Opened, is_localhost, localhost,
  localhost_mapped, find_adapters, keep_socket, open_next, take_ipv4, take_ipv6, take_unicast,
  take_unicasts, take_adapters, open_sockets,
}

-- An address that other hosts can reach.
abbrev pub is_public : Unicast → Bool
is_public u = elim u.address [
  | v4 b1 b2 b3 b4 ↦ not (is_localhost b1 b2 b3 b4)
  | v6 bytes ↦ u.preferred && not (text_eq bytes localhost) && not (text_eq bytes localhost_mapped)
  | other_family ↦ false
]

abbrev pub public_of : List Unicast → List Address
public_of [] = []
public_of (u ∷ us) = if is_public u then u.address ∷ public_of us else public_of us

abbrev pub public_addresses : (Adapter → Bool) → List Adapter → List Address
public_addresses skipped [] = []
public_addresses skipped (a ∷ others) =
    if skipped a
    then public_addresses skipped others
    else public_of a.unicasts ++ public_addresses skipped others

abbrev pub one_socket : Option ℕ → List ℕ
one_socket none = []
one_socket (some sock) = sock ∷ []

-- The sockets of those addresses that can be opened.
abbrev pub sockets_of : (Address → Option ℕ) → List Address → List ℕ
sockets_of bind [] = []
sockets_of bind (address ∷ rest) = one_socket (bind address) ++ sockets_of bind rest

sockets_of-append :
    (bind : Address → Option ℕ) (xs ys : List Address)
    → sockets_of bind (xs ++ ys) ≡ sockets_of bind xs ++ sockets_of bind ys
sockets_of-append bind [] ys = refl
sockets_of-append bind (x ∷ xs) ys =
    ap (◌++◌ (one_socket (bind x))) (sockets_of-append bind xs ys)
    ∙ sym (append_assoc (one_socket (bind x)) (sockets_of bind xs) (sockets_of bind ys))

take-append_take :
    {A : Type 0} (n : ℕ) (xs ys : List A) → take n (take n xs ++ ys) ≡ take n (xs ++ ys)
take-append_take zero xs ys = refl
take-append_take (suc n) [] ys = refl
take-append_take (suc n) (x ∷ xs) ys = ap (◌∷◌ x) (take-append_take n xs ys)

take-enough : {A : Type 0} (n : ℕ) (xs : List A) → length xs ≤ n → take n xs ≡ xs
take-enough zero [] h = refl
take-enough zero (x ∷ xs) h = absurd (omega arith)
take-enough (suc n) [] h = refl
take-enough (suc n) (x ∷ xs) h = ap (◌∷◌ x) (take-enough n xs (omega arith))

take-beyond : {A : Type 0} (n : ℕ) (xs ys : List A) → length xs ≡ n → take n (xs ++ ys) ≡ xs
take-beyond zero [] ys h = refl
take-beyond zero (x ∷ xs) ys h = absurd (omega arith)
take-beyond (suc n) [] ys h = absurd (omega arith)
take-beyond (suc n) (x ∷ xs) ys h = ap (◌∷◌ x) (take-beyond n xs ys (omega arith))

found_first :
    (answers : ℕ → Reply) (found : List Adapter)
    → answers 0 ≡ adapters found
    → find_adapters 4 0 answers ≡ some found
unfolding find_adapters
found_first answers found e = rw (e, find_adapters) refl

module _ (max : ℕ) where
  -- The sockets have been added, as far as there was room.
  record Adds (before : Opened) (socks : List ℕ) (after : Opened) : Type 0 where
    same : after.sockets ≡ take max (before.sockets ++ socks)
    room : length after.sockets ≤ max

  unchanged-Adds :
      (before after : Opened)
      → length before.sockets ≤ max
      → after.sockets ≡ before.sockets
      → Adds before [] after
  unchanged-Adds before after h e = record {
    same = e ∙ sym (ap (take max) (append-nil before.sockets) ∙ take-enough max before.sockets h);
    room = rw e h;
  }

  both-Adds : (r s t : Opened) (xs ys : List ℕ) → Adds r xs s → Adds s ys t → Adds r (xs ++ ys) t
  both-Adds r s t xs ys f g = record {
    same =
        g.same
        ∙ ap (λ socks. take max (socks ++ ys)) f.same
        ∙ take-append_take max (r.sockets ++ xs) ys
        ∙ ap (take max) (append_assoc r.sockets xs ys);
    room = g.room;
  }

  module _ (bind : ℕ → Address → Option ℕ) (port : ℕ) where
    keep-Adds :
        (sock : Option ℕ) (s : Opened)
        → suc (length s.sockets) ≤ max
        → Adds s (one_socket sock) (keep_socket sock s)
    unfolding keep_socket
    keep-Adds none s h = unchanged-Adds s s (omega arith) refl
    keep-Adds (some sock) s h =
        let one = length-append s.sockets (sock ∷ []) in
        record {
          same = sym (take-enough max (s.sockets ++ sock ∷ []) (omega arith));
          room = omega arith;
        }

    open_next-Adds :
        (address : Address) (s : Opened)
        → length s.sockets ≤ max
        → Adds s (one_socket (bind port address)) (open_next bind port max address s)
    unfolding open_next
    open_next-Adds address s h =
        if_cases (Adds s (one_socket (bind port address))) (ltb (length s.sockets) max)
          (keep_socket (bind port address) s) s
          (λ e. keep-Adds (bind port address) s (ground arith))
          (λ e.
            let full : length s.sockets ≡ max = ground arith in
            record {
              same = sym (take-beyond max s.sockets (one_socket (bind port address)) full);
              room = h;
            })

    take_ipv4-Adds :
        (address : Address) (s : Opened)
        → length s.sockets ≤ max
        → Adds s (one_socket (bind port address)) (take_ipv4 bind port max address s)
    unfolding take_ipv4
    take_ipv4-Adds address s h =
        let next =
          open_next-Adds address
            (record s {
              service_address_ipv4 = if s.first_ipv4 then some address else s.service_address_ipv4;
              first_ipv4 = false;
              has_ipv4 = true;
            })
            h in
        record { same = next.same; room = next.room }

    take_ipv6-Adds :
        (address : Address) (s : Opened)
        → length s.sockets ≤ max
        → Adds s (one_socket (bind port address)) (take_ipv6 bind port max address s)
    unfolding take_ipv6
    take_ipv6-Adds address s h =
        let next =
          open_next-Adds address
            (record s {
              service_address_ipv6 = if s.first_ipv6 then some address else s.service_address_ipv6;
              first_ipv6 = false;
              has_ipv6 = true;
            })
            h in
        record { same = next.same; room = next.room }

    abbrev socks : List Address → List ℕ
    socks = sockets_of (bind port)

    unicast-Adds :
        (address : Address) (preferred : Bool) (s : Opened)
        → length s.sockets ≤ max
        → Adds s
            (socks (public_of (record { address = address; preferred = preferred } ∷ [])))
            (take_unicast bind port max address preferred s)
    unfolding take_unicast
    unicast-Adds (v4 b1 b2 b3 b4) preferred s h = elim (Bool-cases (is_localhost b1 b2 b3 b4)) [
      | inl e ↦ rw e (unchanged-Adds s s h refl)
      | inr e ↦
          rw (e, append-nil (one_socket (bind port (v4 b1 b2 b3 b4))))
            (take_ipv4-Adds (v4 b1 b2 b3 b4) s h)
    ]
    unicast-Adds (v6 bytes) preferred s h =
        let reached =
          preferred && not (text_eq bytes localhost) && not (text_eq bytes localhost_mapped) in
        elim (Bool-cases reached) [
          | inl e ↦
              rw (e, append-nil (one_socket (bind port (v6 bytes)))) (take_ipv6-Adds (v6 bytes) s h)
          | inr e ↦ rw e (unchanged-Adds s s h refl)
        ]
    unicast-Adds other_family preferred s h = unchanged-Adds s s h refl

    public_of-head :
        (u : Unicast) (us : List Unicast)
        → socks (public_of (u ∷ us)) ≡ socks (public_of (u ∷ [])) ++ socks (public_of us)
    public_of-head u us = elim (Bool-cases (is_public u)) [
      | inl e ↦ rw (e, append-nil (one_socket (bind port u.address))) refl
      | inr e ↦ rw e refl
    ]

    unicasts-Adds :
        (us : List Unicast) (s : Opened)
        → length s.sockets ≤ max
        → Adds s (socks (public_of us)) (take_unicasts bind port max us s)
    unfolding take_unicasts
    unicasts-Adds [] s h = unchanged-Adds s s h refl
    unicasts-Adds (u ∷ us) s h =
        let t = take_unicast bind port max u.address u.preferred s in
        let one = unicast-Adds u.address u.preferred s h in
        rw (public_of-head u us) (
          both-Adds s t (take_unicasts bind port max us t) (socks (public_of (u ∷ [])))
            (socks (public_of us)) one (unicasts-Adds us t one.room))

    adapters-Adds :
        (skipped : Adapter → Bool) (found : List Adapter) (s : Opened)
        → length s.sockets ≤ max
        → Adds s
            (socks (public_addresses skipped found))
            (take_adapters bind port max skipped found s)
    unfolding take_adapters
    adapters-Adds skipped [] s h = unchanged-Adds s s h refl
    adapters-Adds skipped (a ∷ others) s h = elim (Bool-cases (skipped a)) [
      | inl e ↦ rw e (adapters-Adds skipped others s h)
      | inr e ↦
          let t = take_unicasts bind port max a.unicasts s in
          let these = unicasts-Adds a.unicasts s h in
          rw
            (
              e,
              sockets_of-append (bind port) (public_of a.unicasts)
                  (public_addresses skipped others),
            )
            (both-Adds s t (take_adapters bind port max skipped others t)
              (socks (public_of a.unicasts)) (socks (public_addresses skipped others)) these
              (adapters-Adds skipped others t these.room))
    ]

    -- Where Windows answers the first call, the sockets are those of the first public addresses of the
    -- adapters that are not passed over, in their order, as many as there is room for, and those that
    -- cannot be bound left out.
    pub open_sockets-public :
        (skipped : Adapter → Bool) (answers : ℕ → Reply) (found : List Adapter) (s : Opened)
        → answers 0 ≡ adapters found
        → (open_sockets bind port max skipped answers s).sockets
          ≡ take max (sockets_of (bind port) (public_addresses skipped found))
    unfolding open_sockets
    open_sockets-public skipped answers found s e =
        let start = record s { first_ipv4 = true; first_ipv6 = true; sockets = [] } in
        rw (found_first answers found e, open_sockets)
          (adapters-Adds skipped found start (omega arith)).same

    -- However the calls of Windows are answered, the sockets fit into their array.
    pub open_sockets-Fits :
        (skipped : Adapter → Bool) (answers : ℕ → Reply) (s : Opened)
        → length (open_sockets bind port max skipped answers s).sockets ≤ max
    unfolding open_sockets
    open_sockets-Fits skipped answers s = elim (Option-cases (find_adapters 4 0 answers)) [
      | inl e ↦ rw (e, open_sockets) (omega arith)
      | inr (found, e) ↦
          let start = record s { first_ipv4 = true; first_ipv6 = true; sockets = [] } in
          rw (e, open_sockets) (adapters-Adds skipped found start (omega arith)).room
    ]
