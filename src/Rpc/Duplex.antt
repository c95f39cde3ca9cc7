-- ===== src/Rpc/Duplex.antt =====
-- `CheckDuplexConnection` and `WaitingForDuplex` of src/service/warp_service_impl.cpp.
use winpinator.Prelude.{
  subst, ℕ, zero, suc, ◌+◌, ◌<◌, ◌≤◌, ◌≡◌, ◌⊎◌, refl, inl, inr, Bool, true, false, Option, none,
  some, arith, ◌==◌, Bool-cases, if◌then◌else◌,
}
use winpinator.Remotes.Types.{RemoteStatus}
use winpinator.Rpc.Requests.{Status, ok, deadline_exceeded}

unfoldable pub has_duplex : RemoteStatus → Bool
has_duplex RemoteStatus.awaiting_duplex = true
has_duplex RemoteStatus.online = true
has_duplex RemoteStatus.offline = false
has_duplex RemoteStatus.registration = false
has_duplex RemoteStatus.init_connecting = false
has_duplex RemoteStatus.unreachable = false

-- The state of the remote that `getRemoteInfo` returns, if it does.
unfoldable pub check_duplex_connection : Option RemoteStatus → Bool
unfolding has_duplex
check_duplex_connection none = false
check_duplex_connection (some state) = has_duplex state

abbrev pub max_tries : ℕ
max_tries = 20

-- The loop of `WaitingForDuplex` with `i` tries done. `poll i` is the state that the try after `i`
-- others reads, half a second after the one before; the fuel is the number of tries left.
unfoldable pub wait_loop : ℕ → ℕ → (ℕ → Option RemoteStatus) → Status × Bool
unfolding check_duplex_connection
wait_loop zero i poll = (ok, false)
wait_loop (suc fuel) i poll =
    let next = wait_loop fuel (i + 1) poll in
    if check_duplex_connection (poll i)
    then (ok, true)
    else if i + 1 == max_tries
    then (deadline_exceeded, false)
    else next

unfoldable pub waiting_for_duplex : (ℕ → Option RemoteStatus) → Status × Bool
unfolding wait_loop
waiting_for_duplex poll = wait_loop max_tries 0 poll

-- What the tries from `i` on found: the first that has a duplex connection, or none.
abbrev Outcome : ℕ → (ℕ → Option RemoteStatus) → Status × Bool → Type 0
Outcome i poll result =
    ((k : ℕ) × (i ≤ k)
      × (k < max_tries)
      × (check_duplex_connection (poll k) ≡ true)
      × ((j : ℕ) → i ≤ j → j < k → check_duplex_connection (poll j) ≡ false)
      × (result ≡ (ok, true)))
    ⊎ (((j : ℕ) → i ≤ j → j < max_tries → check_duplex_connection (poll j) ≡ false)
        × (result ≡ (deadline_exceeded, false)))

split_at : (a b : ℕ) → a ≤ b → (a ≡ b) ⊎ (a + 1 ≤ b)
split_at a b h = ground arith

none_between : (i j : ℕ) → i ≤ j → ¬ (j < i)
none_between i j l h = omega arith

module _ (poll : ℕ → Option RemoteStatus) where
  abbrev Missed : ℕ → Type 0
  Missed j = check_duplex_connection (poll j) ≡ false

  Missed-from :
      (i j n : ℕ) → Missed i → ((k : ℕ) → i + 1 ≤ k → k < n → Missed k) → i ≤ j → j < n → Missed j
  Missed-from i j n miss later l h = elim (split_at i j l) [
    | inl same ↦ subst Missed same miss
    | inr beyond ↦ later j beyond h
  ]

  -- A miss at `i` and the outcome of the later tries.
  miss-Outcome :
      (i : ℕ) (result : Status × Bool)
      → Missed i
      → Outcome (i + 1) poll result
      → Outcome i poll result
  miss-Outcome i result miss (inl (k, from, to, hit, before, e)) =
      inl (k, omega arith, to, hit, λ j l h. Missed-from i j k miss before l h, e)
  miss-Outcome i result miss (inr (none_later, e)) =
      inr (λ j l h. Missed-from i j max_tries miss none_later l h, e)

  hit-Outcome :
      (i : ℕ) (result : Status × Bool)
      → i < max_tries
      → check_duplex_connection (poll i) ≡ true
      → result ≡ (ok, true)
      → Outcome i poll result
  hit-Outcome i result h hit e =
      inl (i, omega arith, h, hit, λ j l k. absurd (none_between i j l k), e)

  wait_loop_hit :
      (fuel i : ℕ)
      → check_duplex_connection (poll i) ≡ true
      → wait_loop (suc fuel) i poll ≡ (ok, true)
  unfolding wait_loop
  wait_loop_hit fuel i hit = rw hit refl

  wait_loop_last :
      (i : ℕ) → Missed i → i + 1 ≡ max_tries → wait_loop 1 i poll ≡ (deadline_exceeded, false)
  unfolding wait_loop
  wait_loop_last i miss e = rw miss (ground arith)

  wait_loop_more :
      (fuel i : ℕ)
      → Missed i
      → i + 1 < max_tries
      → wait_loop (suc fuel) i poll ≡ wait_loop fuel (i + 1) poll
  unfolding wait_loop
  wait_loop_more fuel i miss h = rw miss (ground arith)

  wait_loop-Outcome :
      (fuel i : ℕ) → suc fuel + i ≡ max_tries → Outcome i poll (wait_loop (suc fuel) i poll)
  wait_loop-Outcome zero i e = elim (Bool-cases (check_duplex_connection (poll i))) [
    | inl hit ↦ hit-Outcome i _ (omega arith) hit (wait_loop_hit 0 i hit)
    | inr miss ↦ inr (
      λ j l h.
          Missed-from i j max_tries miss (λ k a b. absurd (none_between (i + 1) k a (omega arith)))
            l h,
      wait_loop_last i miss (omega arith),
    )
  ]
  wait_loop-Outcome (suc fuel) i e = elim (Bool-cases (check_duplex_connection (poll i))) [
    | inl hit ↦ hit-Outcome i _ (omega arith) hit (wait_loop_hit (suc fuel) i hit)
    | inr miss ↦ miss-Outcome i _ miss (
        rw (wait_loop_more (suc fuel) i miss (omega arith))
          (wait_loop-Outcome fuel (i + 1) (omega arith)))
  ]

-- Waiting for the other direction ends after at most twenty looks at the remote. It answers true as
-- soon as one of them finds the remote known and online or waiting for its own duplex connection, and
-- it fails with a timeout only when none of the twenty does.
pub waiting_for_duplex_cases :
    (poll : ℕ → Option RemoteStatus)
    → ((k : ℕ) × (k < max_tries)
        × (check_duplex_connection (poll k) ≡ true)
        × ((j : ℕ) → j < k → check_duplex_connection (poll j) ≡ false)
        × (waiting_for_duplex poll ≡ (ok, true)))
      ⊎ (((j : ℕ) → j < max_tries → check_duplex_connection (poll j) ≡ false)
          × (waiting_for_duplex poll ≡ (deadline_exceeded, false)))
unfolding waiting_for_duplex
waiting_for_duplex_cases poll = elim (wait_loop-Outcome poll 19 0 refl) [
  | inl (k, _, to, hit, before, e) ↦ inl (k, to, hit, λ j h. before j (omega arith) h, e)
  | inr (all_missed, e) ↦ inr (λ j h. all_missed j (omega arith) h, e)
]
