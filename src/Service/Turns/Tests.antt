-- ===== src/Service/Turns/Tests.antt =====
-- A service that is restarted, and one without a network, for src/service/winpinator_service.cpp.
use winpinator.Prelude.{ℕ, ◌≡◌, refl, not, true, false, [], ◌∷◌, some}
use winpinator.Service.Main
use winpinator.Service.Main.{
  ServiceError, has_error, stop_service, restart_service, Turn, Conditions, runs, stop_waits,
  start_services, start_on_this_thread,
}
use winpinator.Service.Turns.{start_on_this_thread-settings}

-- A service whose settings are a port, with a network on which everything works.
abbrev working_conditions : Conditions ℕ
working_conditions = record {
  is_absolute = λ s. true;
  dir_exists = λ s. true;
  mkdir_succeeds = λ s. false;
  first_ip_valid = λ s. true;
  registers_v1 = λ s. true;
  registers_v2 = λ s. true;
  rpc_starts = λ s. true;
  second_ip_valid = λ s. true;
}

abbrev changed_while_restarting : Turn ℕ
changed_while_restarting = record {
  online = true;
  waiting = restart_service (some 42001) ∷ [];
  later = [];
  conditions = working_conditions;
}

abbrev without_network : Turn ℕ
without_network = record {
  online = false;
  waiting = stop_service ∷ [];
  later = [];
  conditions = working_conditions;
}

abbrev first_service : Main.Service ℕ
first_service = record { settings = 42000; error = ServiceError.kein_error; ready = false }

start_on_this_thread-settings_example :
    start_on_this_thread true (changed_while_restarting ∷ []) first_service
    ≡ some (
        runs (record first_service {
          error = start_services working_conditions 42000;
          ready = not (has_error (start_services working_conditions 42000));
        }))
start_on_this_thread-settings_example =
    start_on_this_thread-settings changed_while_restarting [] first_service refl
      (unfold stop_waits in refl) refl
