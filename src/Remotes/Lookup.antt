-- ===== src/Remotes/Lookup.antt =====
-- Finding and counting the hosts of `RemoteManager`, and what a lost or repeated announcement does.
use winpinator.Prelude.{
  ℕ, ◌+◌, ◌≡◌, ◌⊎◌, refl, sym, ap, ◌∙◌, inl, inr, Bool, true, false, List, [], ◌∷◌, ◌++◌, Text,
  codes, text_eq, text_eq_iff, text_eq_refl, none, some, All, length, arith, Bool-cases,
  if◌then◌else◌,
}
use winpinator.Prelude.Int.{ℤ}
use winpinator.Remotes.Types.{MdnsServiceData, RemoteInfo}
use winpinator.Remotes.Naming.{strip_service_from_ident}
use winpinator.Remotes.Hosts.{
  Key, Manager, in_set, search_hosts, fill_info, add_known, add_host, process_add_host,
  clear_presence, process_remove_host, has_id, find_host, is_host_available, get_remote_info,
  visible_hosts, generate_current_host_list, count_visible, get_visible_hosts_count, stop,
}

has_id-find_host :
    (id : Text) (hs : List RemoteInfo)
    → ((has_id id hs ≡ false) × (find_host id hs ≡ none))
      ⊎ ((h : RemoteInfo) × (has_id id hs ≡ true) × (find_host id hs ≡ some h) × (h.id ≡ id))
unfolding has_id find_host
has_id-find_host id [] = inl (refl, refl)
has_id-find_host id (h ∷ hs) = elim (Bool-cases (text_eq h.id id)) [
  | inl e ↦ inr (h, (rw e refl), (rw e refl), (text_eq_iff h.id id).0 e)
  | inr e ↦ rw e (has_id-find_host id hs)
]

-- The two ways to ask for a host agree: one says that it is available exactly when the other
-- returns it, and what is returned has the id that was asked for, stripped of the service type
-- where the caller asks for that.
pub available-get_remote_info :
    (id : Text) (strip : Bool) (m : Manager)
    → let wanted = if strip then strip_service_from_ident m.srv_type id else id in
      ((is_host_available id strip m ≡ false) × (get_remote_info id strip m ≡ none))
      ⊎ ((h : RemoteInfo) × (is_host_available id strip m ≡ true)
          × (get_remote_info id strip m ≡ some h)
          × (h.id ≡ wanted))
unfolding is_host_available get_remote_info
available-get_remote_info id strip m =
    has_id-find_host (if strip then strip_service_from_ident m.srv_type id else id) m.hosts

count_visible-length :
    (n : ℕ) (hs : List RemoteInfo) → count_visible n hs ≡ n + length (visible_hosts hs)
unfolding count_visible visible_hosts
count_visible-length n [] = omega arith
count_visible-length n (h ∷ hs) = elim (Bool-cases h.visible) [
  | inl e ↦ simp e (omega (arith, count_visible-length (n + 1) hs))
  | inr e ↦ simp e (omega (arith, count_visible-length n hs))
]

-- The number of visible hosts is the length of the list of hosts that is shown.
pub visible_count-length :
    (m : Manager) → get_visible_hosts_count m ≡ length (generate_current_host_list m)
unfolding get_visible_hosts_count generate_current_host_list
visible_count-length m = rw (count_visible-length 0 m.hosts) (omega arith)

-- The id of a host that a lost announcement names.
abbrev pub Lost : Text → RemoteInfo → Type 0
Lost id h = h.id ≡ id → h.has_zc_presence ≡ false

clear_presence-Lost : (id : Text) (hs : List RemoteInfo) → All (Lost id) (clear_presence id hs)
unfolding clear_presence
clear_presence-Lost id [] = tt
clear_presence-Lost id (h ∷ hs) = (lost, clear_presence-Lost id hs)
  where
    lost : Lost id (if text_eq h.id id then record h { has_zc_presence = false } else h)
    lost = elim (Bool-cases (text_eq h.id id)) [
      | inl e ↦ rw e (λ _. refl)
      | inr e ↦ rw e (λ same. cc ((text_eq_iff h.id id).1 same))
    ]

clear_presence-visible :
    (id : Text) (hs : List RemoteInfo)
    → length (visible_hosts (clear_presence id hs)) ≡ length (visible_hosts hs)
unfolding clear_presence visible_hosts
clear_presence-visible id [] = refl
clear_presence-visible id (h ∷ hs) = ground (arith, clear_presence-visible id hs)

clear_presence-has_id :
    (id other : Text) (hs : List RemoteInfo) → has_id other (clear_presence id hs) ≡ has_id other hs
unfolding clear_presence has_id
clear_presence-has_id id other [] = refl
clear_presence-has_id id other (h ∷ hs) = ground (arith, clear_presence-has_id id other hs)

-- When an announcement is lost, every host with its stripped id has lost its presence on the
-- network, while the same hosts stay available and as many stay visible.
pub process_remove_host_lem :
    (id : Text) (m : Manager)
    → let n = process_remove_host id m in
      All (Lost (strip_service_from_ident m.srv_type id)) n.hosts
      × ((other : Text) (strip : Bool)
          → is_host_available other strip n ≡ is_host_available other strip m)
      × (get_visible_hosts_count n ≡ get_visible_hosts_count m)
unfolding process_remove_host is_host_available get_visible_hosts_count
process_remove_host_lem id m =
    let gone = strip_service_from_ident m.srv_type id in
    (
      clear_presence-Lost gone m.hosts,
      λ other strip. clear_presence-has_id gone _ m.hosts,
      count_visible-length 0 (clear_presence gone m.hosts)
          ∙ ap (λ (n : ℕ). 0 + n) (clear_presence-visible gone m.hosts)
          ∙ sym (count_visible-length 0 m.hosts),
    )

has_id-snoc :
    (id : Text) (hs : List RemoteInfo) (g : RemoteInfo)
    → g.id ≡ id
    → has_id id (hs ++ g ∷ []) ≡ true
unfolding has_id
has_id-snoc id [] g e = rw (e, text_eq_refl id)
has_id-snoc id (h ∷ hs) g e = ground (arith, has_id-snoc id hs g e)

module _ (atoi : Text → ℤ) (service : MdnsServiceData) (hostname : Text) (m : Manager)
    (real : service.txt_records (codes "type") ≡ some (codes "real"))
    (named : service.txt_records (codes "hostname") ≡ some hostname) where
  abbrev key : Key
  key = (hostname, record { valid = true; ipv4 = service.ipv4; ipv6 = service.ipv6 })

  -- The announcement of a host of type `real` that was never announced before makes it available
  -- under its stripped service name.
  pub process_add_host-available :
      in_set key m.host_set ≡ false
      → is_host_available service.name true (process_add_host atoi service m) ≡ true
  unfolding process_add_host add_host is_host_available fill_info
  process_add_host-available new =
      rw (real, process_add_host)
        (rw (named) (rw (text_eq_refl (codes "real")) (rw (new) (has_id-snoc _ m.hosts _ refl))))

  -- `stop` empties the list of hosts and keeps the set of announced ones, so a host that had been
  -- announced before is ignored when it is announced again.
  pub stop_ignores : in_set key m.host_set ≡ true → process_add_host atoi service (stop m) ≡ stop m
  unfolding process_add_host add_host add_known stop search_hosts
  stop_ignores old =
      rw (real, process_add_host) (rw named (rw (text_eq_refl (codes "real")) (rw old refl)))
