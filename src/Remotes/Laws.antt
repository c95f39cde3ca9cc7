-- ===== src/Remotes/Laws.antt =====
-- The host list of `RemoteManager`: one entry for each announced host.
use winpinator.Prelude.{
  ℕ, zero, suc, ◌≡◌, ◌↔◌, refl, sym, ap, inl, inr, true, false, List, [], ◌∷◌, ◌++◌, map, Text,
  codes, text_eq, text_eq_iff, Option-cases, All, All-append, All-map, arith, Bool-cases,
}
use mathlib.Core.List.{map-append}
use winpinator.Prelude.Int.{ℤ}
use winpinator.Remotes.Types.{
  MdnsIpPair, MdnsServiceData, RemoteInfo, ip_pair_eq, text_lt, ip_pair_lt,
}
use winpinator.Remotes.Hosts.{
  Key, key_eq, key_of, Manager, in_set, Search, absent, running, stopped, search_hosts, fill_info,
  update_at, add_known, add_host, process_add_host, new_info,
}

ip_pair_eq_iff : (a b : MdnsIpPair) → (ip_pair_eq a b ≡ true) ↔ (a ≡ b)
unfolding ip_pair_eq
ip_pair_eq_iff a b = ground (arith, text_eq_iff a.ipv4 b.ipv4, text_eq_iff a.ipv6 b.ipv6)

pub key_eq_iff : (a b : Key) → (key_eq a b ≡ true) ↔ (a ≡ b)
unfolding key_eq
key_eq_iff a b = ground (arith, text_eq_iff a.0 b.0, ip_pair_eq_iff a.1 b.1)

-- Neither of two texts comes before the other only if they are equal.
text_lt_total : (a b : Text) → text_lt a b ≡ false → text_lt b a ≡ false → a ≡ b
unfolding text_lt
text_lt_total [] [] h k = refl
text_lt_total [] (b ∷ ys) h k = cc
text_lt_total (a ∷ xs) [] h k = cc
text_lt_total (a ∷ xs) (b ∷ ys) h k = ground (arith, text_lt_total xs ys)

-- The order by which the set of announced hosts is kept tells all address pairs apart that
-- `operator==` tells apart: two pairs neither of which is smaller are equal.
pub ip_pair_lt_total :
    (a b : MdnsIpPair) → ip_pair_lt a b ≡ false → ip_pair_lt b a ≡ false → ip_pair_eq a b ≡ true
unfolding ip_pair_lt
ip_pair_lt_total a b h k =
    (ip_pair_eq_iff a b).1
      (ground (arith, text_lt_total a.ipv4 b.ipv4, text_lt_total a.ipv6 b.ipv6))

abbrev keys : List RemoteInfo → List Key
keys = map key_of

abbrev DistinctKeys : List Key → Type 0
DistinctKeys [] = Unit
DistinctKeys (k ∷ ks) = (in_set k ks ≡ false) × DistinctKeys ks

-- Every listed host has been announced, and no two have the same name and addresses.
pub record IsValid (m : Manager) : Type 0 where
  pub known : All (λ k. in_set k m.host_set ≡ true) (keys m.hosts)
  pub distinct : DistinctKeys (keys m.hosts)

known_absent :
    (k : Key) (s ks : List Key)
    → All (λ j. in_set j s ≡ true) ks
    → in_set k s ≡ false
    → in_set k ks ≡ false
unfolding in_set
known_absent k s [] a n = refl
known_absent k s (j ∷ ks) a n = elim (Bool-cases (key_eq k j)) [
  | inl e ↦ cc (a.0, ap (λ i. in_set i s) ((key_eq_iff k j).0 e))
  | inr e ↦ rw e (known_absent k s ks a.1 n)
]

key_eq_comm_false : (a b : Key) → key_eq a b ≡ false → key_eq b a ≡ false
key_eq_comm_false a b h = elim (Bool-cases (key_eq b a)) [
  | inl e ↦ cc ((key_eq_iff a b).1 (sym ((key_eq_iff b a).0 e)))
  | inr e ↦ e
]

in_set-snoc :
    (k g : Key) (ks : List Key)
    → in_set k ks ≡ false
    → key_eq k g ≡ false
    → in_set k (ks ++ g ∷ []) ≡ false
unfolding in_set
in_set-snoc k g [] n e = rw e
in_set-snoc k g (j ∷ ks) n e = ground (arith, in_set-snoc k g ks)

snoc-DistinctKeys :
    (ks : List Key) (g : Key) → DistinctKeys ks → in_set g ks ≡ false → DistinctKeys (ks ++ g ∷ [])
unfolding in_set
snoc-DistinctKeys [] g d n = (refl, tt)
snoc-DistinctKeys (k ∷ ks) g d n =
    let other : key_eq g k ≡ false = ground arith in
    (
      in_set-snoc k g ks d.0 (key_eq_comm_false g k other),
      snoc-DistinctKeys ks g d.1 (ground arith),
    )

in_set-cons : (k g : Key) (s : List Key) → in_set k s ≡ true → in_set k (g ∷ s) ≡ true
unfolding in_set
in_set-cons k g s h = ground arith

in_set_self : (k : Key) (s : List Key) → in_set k (k ∷ s) ≡ true
unfolding in_set
in_set_self k s = rw ((key_eq_iff k k).1 refl)

module _ (atoi : Text → ℤ) (service : MdnsServiceData) where
  keys-update_at :
      (i : ℕ) (t : Text) (hs : List RemoteInfo) → keys (update_at atoi i t service hs) ≡ keys hs
  unfolding update_at fill_info
  keys-update_at i t [] = refl
  keys-update_at zero t (h ∷ hs) = refl
  keys-update_at (suc i) t (h ∷ hs) = ap (◌∷◌ (key_of h)) (keys-update_at i t hs)

  add_known-IsValid : (m : Manager) (f : Search) → IsValid m → IsValid (add_known atoi service m f)
  unfolding add_known
  add_known-IsValid m absent v = v
  add_known-IsValid m running v = v
  add_known-IsValid m (stopped i) v =
      let same = keys-update_at i m.srv_type m.hosts in
      record { known = rw same v.known; distinct = rw same v.distinct }

  add_host-IsValid :
      (hostname : Text) (m : Manager) → IsValid m → IsValid (add_host atoi hostname service m)
  add_host-IsValid hostname m v =
      let ips : MdnsIpPair = record { valid = true; ipv4 = service.ipv4; ipv6 = service.ipv6 } in
      let k : Key = (hostname, ips) in
      let new = fill_info atoi m.srv_type service (new_info hostname ips) in
      elim (Bool-cases (in_set k m.host_set)) [
        | inl e ↦
            unfold add_host in rw (e, add_host) (add_known-IsValid m (search_hosts k m.hosts) v)
        | inr e ↦
            unfold add_host fill_info in
            rw (e, add_host)
              (record {
                known = rw (map-append key_of m.hosts (new ∷ [])) (
                    All-append (λ j. in_set j (k ∷ m.host_set) ≡ true) (keys m.hosts) (k ∷ [])
                      (All-map _ _ (keys m.hosts) (λ j. in_set-cons j k m.host_set) v.known)
                      (in_set_self k m.host_set, tt));
                distinct = rw (map-append key_of m.hosts (new ∷ [])) (
                    snoc-DistinctKeys (keys m.hosts) k v.distinct
                      (known_absent k m.host_set (keys m.hosts) v.known e));
              })
      ]

  -- Whatever a discovered service announces, the host list keeps at most one entry for each host
  -- name and address pair, and every listed host stays among those already announced.
  pub process_add_host-IsValid :
      (m : Manager) → IsValid m → IsValid (process_add_host atoi service m)
  process_add_host-IsValid m v = elim (Option-cases (service.txt_records (codes "type"))) [
    | inl e ↦ unfold process_add_host in rw (e, process_add_host) v
    | inr (kind, e) ↦ elim (Option-cases (service.txt_records (codes "hostname"))) [
      | inl f ↦ unfold process_add_host in rw (e, process_add_host) (rw f v)
      | inr (hostname, f) ↦ elim (Bool-cases (text_eq kind (codes "real"))) [
        | inl g ↦
            unfold process_add_host in
            rw (e, process_add_host) (rw f (rw g (add_host-IsValid hostname m v)))
        | inr g ↦ unfold process_add_host in rw (e, process_add_host) (rw f (rw g v))
      ]
    ]
  ]
