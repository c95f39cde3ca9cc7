-- ===== src/Handler/Statuses.antt =====
-- The statuses that a connection of the first version (src/service/remote_handler.cpp) shows.
use winpinator.Prelude.{
  ℕ, zero, suc, ◌+◌, ◌≤◌, ◌≡◌, ◌⊎◌, inl, inr, Bool, true, false, List, ◌∷◌, arith, if◌then◌else◌,
}
use winpinator.Remotes.Types.{awaiting_duplex, online}
use winpinator.Handler.Link.{Told, edited, asked_info, asked_avatar, duplex_max_failures, Link}
use winpinator.Handler.Secure.{Loop, Next, again, leaves, gives}

-- `n` times `AWAITING_DUPLEX`, in front of a log.
abbrev pub waits : ℕ → List Told → List Told
waits zero log = log
waits (suc n) log = edited awaiting_duplex ∷ waits n log

-- The log `log` of a connection that began with `before`: the duplex failed `n` times, at most as often
-- as the bound, each after one `AWAITING_DUPLEX`, and either that is all, or one more was answered and
-- `ONLINE` shown, and shown once more if the question about the user has been answered.
abbrev pub Shown : ℕ → List Told → Bool → Bool → ℕ → List Told → Type 0
Shown bound before one_ping pending n log =
    ((one_ping ≡ false) × (pending ≡ false) × (n ≤ bound) × (log ≡ waits n before))
    ⊎ ((one_ping ≡ true)
        × (n ≤ duplex_max_failures)
        × (log ≡ (
            let asked = asked_avatar ∷ asked_info ∷ edited online ∷ waits (suc n) before in
            if pending then asked else edited online ∷ asked)))

abbrev pub ShownIn : ℕ → List Told → Loop → Type 0
ShownIn bound before s =
    Shown bound before s.one_ping s.info_pending s.duplex_fail_counter s.link.log

-- Where the loop goes on, there is room for one more failure.
abbrev Good : List Told → Loop × Next → Type 0
Good before (s, again) = ShownIn duplex_max_failures before s
Good before (s, leaves) = ShownIn (duplex_max_failures + 1) before s
Good before (s, gives b) = ShownIn (duplex_max_failures + 1) before s

weaken :
    (before : List Told) (s : Loop)
    → ShownIn duplex_max_failures before s
    → ShownIn (duplex_max_failures + 1) before s
weaken before s (inl (p, q, b, e)) = inl (p, q, omega arith, e)
weaken before s (inr h) = inr h

Good-weaken :
    (before : List Told) (r : Loop × Next)
    → Good before r
    → ShownIn (duplex_max_failures + 1) before r.0
Good-weaken before (s, again) h = weaken before s h
Good-weaken before (s, leaves) h = h
Good-weaken before (s, gives b) h = h
