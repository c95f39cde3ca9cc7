-- ===== src/Handler/Lost.antt =====
-- What a thread of a remote that has ended leaves to the other parts: the transfers of its host in
-- src/service/transfer_manager.cpp, and the entry of the host list of src/service/remote_manager.cpp.
use winpinator.Prelude.{
  ◌≡◌, refl, sym, ap, ◌∙◌, inl, inr, Bool, true, false, List, [], ◌∷◌, ◌++◌, Text, codes, text_eq,
  some, subst,
}
use winpinator.Prelude.Int.{ℤ}
use winpinator.Remotes.Types.{MdnsServiceData, RemoteInfo, offline}
use winpinator.Remotes.Hosts.{
  Key, key_eq, key_of, in_set, Search, running, absent, stopped, search_step, search_hosts,
  add_known, add_host, process_add_host,
}
use winpinator.Remotes.Hosts
use winpinator.Remotes.Laws.{key_eq_iff}
use winpinator.Transfers.State.{Env, Manager, Remote}
use winpinator.Transfers.Invariant.{IsValid}
use winpinator.Transfers.Invariant.Failing.{AllFailed, fail_all-AllFailed}
use winpinator.Handler.Link.{Told, edited, Link}
use winpinator.Handler.Secure.{Attempt, process_v1}
use winpinator.Handler.Thread.{edit_listener}
use winpinator.Handler.Endings.{process_v1-Ended}

-- Once the thread of a host of the first version has ended, the last thing that its listener was
-- told is that the host is offline; the call for it, in any valid state of the transfer manager in which
-- the host is known, ends without a null pointer, marks every transfer that was listed for the host as
-- failed and empties its list, and nothing else changes.
pub process_v1-AllFailed :
    (attempts : List Attempt) (l t : Link)
    → process_v1 attempts l ≡ (t, true)
    → (env : Env) (info : Remote) → env.remote t.info.id ≡ some info
    → (m : Manager) → IsValid m
    → (before : List Told) × (n : Manager) × (t.log ≡ edited offline ∷ before)
      × (edit_listener env t.info.id (edited offline) m ≡ some n)
      × AllFailed t.info.id m n
unfolding edit_listener
process_v1-AllFailed attempts l t e env info known m v =
    let ended = process_v1-Ended attempts l t e in
    let (n, done, all) = fail_all-AllFailed env t.info.id info known m v in
    (ended.before, n, ended.last, done, all)

search_step-running : (same stops : Bool) → search_step same stops running ≡ running
unfolding search_step
search_step-running true true = refl
search_step-running true false = refl
search_step-running false s = refl

search_step_of_live : (rest : Search) → search_step true false rest ≡ running
unfolding search_step
search_step_of_live rest = refl

search_live :
    (k : Key) (xs ys : List RemoteInfo) (h : RemoteInfo)
    → key_eq k (key_of h) ≡ true
    → h.stopping ≡ false
    → search_hosts k (xs ++ h ∷ ys) ≡ running
unfolding search_hosts
search_live k [] ys h same live = rw (same, live, search_step_of_live (search_hosts k ys)) refl
search_live k (x ∷ xs) ys h same live =
    ap (search_step (key_eq k (key_of x)) x.stopping) (search_live k xs ys h same live)
    ∙ search_step-running (key_eq k (key_of x)) x.stopping

ignored :
    (atoi : Text → ℤ) (service : MdnsServiceData) (m : Hosts.Manager) (hostname : Text)
    → in_set
        (hostname, record { valid = true; ipv4 = service.ipv4; ipv6 = service.ipv6 })
        m.host_set
      ≡ true
    → search_hosts
        (hostname, record { valid = true; ipv4 = service.ipv4; ipv6 = service.ipv6 })
        m.hosts
      ≡ running
    → add_host atoi hostname service m ≡ m
unfolding add_host add_known
ignored atoi service m hostname old live = rw old (rw live refl)

announced :
    (atoi : Text → ℤ) (service : MdnsServiceData) (m : Hosts.Manager) (hostname : Text)
    → service.txt_records (codes "type") ≡ some (codes "real")
    → service.txt_records (codes "hostname") ≡ some hostname
    → process_add_host atoi service m ≡ add_host atoi hostname service m
announced atoi service m hostname kind name =
    unfold process_add_host text_eq in
    rw (kind, process_add_host) (rw (name, process_add_host) refl)

-- A host of the first version whose thread has ended without having been stopped had lost its
-- announcement, and announcing the host again, under the same name and addresses, changes nothing: it
-- stays without a thread.
pub process_v1-not_restarted :
    (attempts : List Attempt) (l t : Link)
    → process_v1 attempts l ≡ (t, true)
    → t.info.stopping ≡ false
    → (atoi : Text → ℤ) (service : MdnsServiceData) (m : Hosts.Manager) (xs ys : List RemoteInfo)
    → m.hosts ≡ xs ++ t.info ∷ ys
    → t.info.ips ≡ record { valid = true; ipv4 = service.ipv4; ipv6 = service.ipv6 }
    → in_set (key_of t.info) m.host_set ≡ true
    → service.txt_records (codes "type") ≡ some (codes "real")
    → service.txt_records (codes "hostname") ≡ some t.info.hostname
    → (t.info.has_zc_presence ≡ false) × (process_add_host atoi service m ≡ m)
process_v1-not_restarted attempts l t e live atoi service m xs ys listed address old kind name =
    let ended = process_v1-Ended attempts l t e in
    let k : Key =
      (t.info.hostname, record { valid = true; ipv4 = service.ipv4; ipv6 = service.ipv6 }) in
    let same : key_of t.info ≡ k = ap (λ ips. (t.info.hostname, ips)) address in
    let found : search_hosts k m.hosts ≡ running =
      ap (search_hosts k) listed
      ∙ search_live k xs ys t.info ((key_eq_iff k (key_of t.info)).1 (sym same)) live in
    (
      elim ended.released [ inl stops ↦ absurd (cc) | inr gone ↦ gone ],
      announced atoi service m t.info.hostname kind name
          ∙ ignored atoi service m t.info.hostname
              (subst (λ j. in_set j m.host_set ≡ true) same old) found,
    )
