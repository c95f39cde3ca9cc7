-- ===== src/Service/Main.antt =====
-- The life of the service: `startOnThisThread` and the beginning and end of `serviceMain` in
-- src/service/winpinator_service.cpp, with the events that control it. Sockets, servers and the network
-- answer by parameters; what the other events do is in Events.
use winpinator.Prelude.{
  Bool, true, false, not, ◌&&◌, ◌||◌, List, [], ◌∷◌, Option, none, some, if◌then◌else◌,
}

pub data ServiceError : Type 0 where
  kein_error unknown_error zeroconf_server_failed : ServiceError
  registration_v1_server_failed registration_v2_server_failed : ServiceError
  warp_server_failed cant_create_output_dir : ServiceError

unfoldable pub has_error : ServiceError → Bool
has_error ServiceError.kein_error = false
has_error _ = true

module _ (Settings : Type 0) where
  -- An event of the queue, with new settings or without.
  pub data Control : Type 0 where
    stop_service : Control
    restart_service : Option Settings → Control
    other_event : Control

  -- What the attempts of `serviceMain` come to, in the settings that it has.
  pub record Conditions : Type 0 where
    pub is_absolute : Settings → Bool
    pub dir_exists : Settings → Bool
    pub mkdir_succeeds : Settings → Bool
    pub first_ip_valid : Settings → Bool
    pub registers_v1 : Settings → Bool
    pub registers_v2 : Settings → Bool
    pub rpc_starts : Settings → Bool
    pub second_ip_valid : Settings → Bool

  -- One turn of the loop: whether the network is there, the events that wait when `serviceMain` begins, and
  -- those that come later.
  pub record Turn : Type 0 where
    pub online : Bool
    pub waiting : List Control
    pub later : List Control
    pub conditions : Conditions

  pub record Service : Type 0 where
    pub settings : Settings
    pub error : ServiceError
    pub ready : Bool

  -- How a turn ends: it restarts, the thread ends, or it still runs.
  pub data Turned : Type 0 where
    restarts ends runs : Service → Turned

-- A section's parameter is the type of the settings.
module _ {Settings : Type 0} where
  unfoldable pub or_settings : Option Settings → Settings → Settings
  or_settings none s = s
  or_settings (some new) s = new

  -- The loop that empties the queue: whether it met `STOP_SERVICE`.
  unfoldable pub stop_waits : List (Control Settings) → Bool
  stop_waits [] = false
  stop_waits (stop_service ∷ cs) = true
  stop_waits (restart_service d ∷ cs) = stop_waits cs
  stop_waits (other_event ∷ cs) = stop_waits cs

  -- The error that `serviceMain` sets before its loop, if any.
  unfoldable pub start_services : Conditions Settings → Settings → ServiceError
  start_services c s =
      if not (c.is_absolute s) || (not (c.dir_exists s) && not (c.mkdir_succeeds s))
      then ServiceError.cant_create_output_dir
      else if not (c.first_ip_valid s)
      then ServiceError.zeroconf_server_failed
      else if not (c.registers_v1 s)
      then ServiceError.registration_v1_server_failed
      else if not (c.registers_v2 s)
      then ServiceError.registration_v2_server_failed
      else if not (c.rpc_starts s)
      then ServiceError.warp_server_failed
      else if not (c.second_ip_valid s)
      then ServiceError.zeroconf_server_failed
      else ServiceError.kein_error

  -- The loop over the events, and the one after an error: both end with the same two events.
  unfoldable pub follow_events : List (Control Settings) → Service Settings → Turned Settings
  unfolding or_settings
  follow_events [] s = runs s
  follow_events (stop_service ∷ cs) s = ends s
  follow_events (restart_service d ∷ cs) s =
      restarts (record s { settings = or_settings d s.settings })
  follow_events (other_event ∷ cs) s = follow_events cs s

  -- `serviceMain`, and the wait for a restart where it has failed.
  unfoldable pub service_main : Turn Settings → Service Settings → Turned Settings
  unfolding stop_waits start_services has_error follow_events
  service_main t s =
      let error = start_services t.conditions s.settings in
      if stop_waits t.waiting
      then ends s
      else follow_events t.later (record s { error = error; ready = not (has_error error) })

  unfoldable pub turn_once : Turn Settings → Service Settings → Turned Settings
  unfolding service_main
  turn_once t s =
      let fresh = record s { ready = false; error = ServiceError.kein_error } in
      if t.online then service_main t fresh else restarts s

  unfoldable pub go_on : (Service Settings → Turned Settings) → Turned Settings → Turned Settings
  go_on more (restarts s) = more s
  go_on more (ends s) = ends s
  go_on more (runs s) = runs s

  -- The loop of `startOnThisThread`, for the turns that there are.
  unfoldable pub turn_loop : List (Turn Settings) → Service Settings → Turned Settings
  unfolding turn_once go_on
  turn_loop [] s = runs s
  turn_loop (t ∷ ts) s = go_on (turn_loop ts) (turn_once t s)

  -- `startOnThisThread`, by whether `WSAStartup` succeeds; `none` is its `return -1`.
  unfoldable pub start_on_this_thread :
      Bool → List (Turn Settings) → Service Settings → Option (Turned Settings)
  unfolding turn_loop
  start_on_this_thread winsock ts s = if winsock then some (turn_loop ts s) else none
