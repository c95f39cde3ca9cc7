-- ===== src/Service/Turns.antt =====
-- What ends the thread of src/service/winpinator_service.cpp, and which settings it runs with.
mod Tests
use winpinator.Prelude.{
  ◌≡◌, refl, sym, ap, ◌∙◌, Bool, true, false, not, ◌&&◌, ◌||◌, List, [], ◌∷◌, Option, some,
  Bool-cases, if◌then◌else◌,
}
use winpinator.Service.Main.{
  ServiceError, has_error, Turn, Service, Turned, restarts, ends, runs, or_settings, stop_waits,
  start_services, follow_events, service_main, turn_once, go_on, turn_loop, start_on_this_thread,
}

module _ {Settings : Type 0} where
  -- In some turn with the network, a stop stands in a queue.
  abbrev pub asked_to_stop : List (Turn Settings) → Bool
  asked_to_stop [] = false
  asked_to_stop (t ∷ ts) =
      (t.online && (stop_waits t.waiting || stop_waits t.later)) || asked_to_stop ts

  abbrev pub NotEnded : Turned Settings → Type 0
  NotEnded (restarts s) = Unit
  NotEnded (ends s) = ⊥
  NotEnded (runs s) = Unit

  main_forgets :
      (t : Turn Settings) (s : Service Settings)
      → stop_waits t.waiting ≡ false
      → t.later ≡ []
      → service_main t s
        ≡ runs (record s {
          error = start_services t.conditions s.settings;
          ready = not (has_error (start_services t.conditions s.settings));
        })
  unfolding service_main follow_events
  main_forgets t s none_waits nothing = rw (none_waits, nothing) refl

  -- Once WinSock has started: in a turn with the network, where no stop waits when the service begins and nothing comes later, the
  -- service runs with the settings that it had and the error that they give, whatever restarts with new
  -- settings were waiting.
  pub start_on_this_thread-settings :
      (t : Turn Settings) (ts : List (Turn Settings)) (s : Service Settings)
      → t.online ≡ true
      → stop_waits t.waiting ≡ false
      → t.later ≡ []
      → start_on_this_thread true (t ∷ ts) s
        ≡ some (
            runs (record s {
              error = start_services t.conditions s.settings;
              ready = not (has_error (start_services t.conditions s.settings));
            }))
  unfolding start_on_this_thread turn_loop turn_once
  start_on_this_thread-settings t ts s online none_waits nothing =
      let fresh = record s { ready = false; error = ServiceError.kein_error } in
      rw (online, main_forgets t fresh none_waits nothing) (unfold go_on in refl)
