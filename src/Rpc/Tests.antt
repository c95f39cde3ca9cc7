-- ===== src/Rpc/Tests.antt =====
-- A small avatar in two chunks, and a remote that connects back at the third look.
use winpinator.Prelude.{
  ℕ, ◌<◌, ◌≤◌, ◌≡◌, ◌⊎◌, true, false, List, [], ◌∷◌, Option, none, some, All, length, arith, ltb,
  if◌then◌else◌,
}
use winpinator.Remotes.Types.{RemoteStatus}
use winpinator.Rpc.Requests.{ok, deadline_exceeded}
use winpinator.Rpc.Avatar.{
  Bytes, get_remote_machine_avatar, collect_chunks, collect-get_remote_machine_avatar,
}
use winpinator.Rpc.Duplex.{
  max_tries, check_duplex_connection, waiting_for_duplex, waiting_for_duplex_cases,
}

collect-get_remote_machine_avatar_example :
    (chunks : List Bytes) × (get_remote_machine_avatar 4 2 (some (7 ∷ 8 ∷ 9 ∷ []))
      ≡ some (ok, chunks))
    × (collect_chunks [] chunks ≡ 7 ∷ 8 ∷ 9 ∷ [])
    × All (λ c. (0 < length c) × (length c ≤ 2)) chunks
collect-get_remote_machine_avatar_example =
    collect-get_remote_machine_avatar 2 7 (8 ∷ 9 ∷ []) (omega arith)

abbrev late_poll : ℕ → Option RemoteStatus
late_poll i = if ltb i 2 then none else some RemoteStatus.online

waiting_for_duplex_cases_example :
    ((k : ℕ) × (k < max_tries)
      × (check_duplex_connection (late_poll k) ≡ true)
      × ((j : ℕ) → j < k → check_duplex_connection (late_poll j) ≡ false)
      × (waiting_for_duplex late_poll ≡ (ok, true)))
    ⊎ (((j : ℕ) → j < max_tries → check_duplex_connection (late_poll j) ≡ false)
        × (waiting_for_duplex late_poll ≡ (deadline_exceeded, false)))
waiting_for_duplex_cases_example = waiting_for_duplex_cases late_poll
