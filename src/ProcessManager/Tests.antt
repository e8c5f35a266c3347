-- ===== src/ProcessManager/Tests.antt =====
-- Runs of the process manager at small inputs.
use iisintegration.Prelude.{◌+◌, ◌%◌, ◌^◌, ◌≡◌, refl, arith, true, [], ◌∷◌, none, some, inl}
use iisintegration.Prelude.Win32.{s_ok, error_success, error_invalid_data, unlocked}
use iisintegration.ProcessManager.{
  Process, Manager, Config, System, new_manager, get_process, retire, create_process,
  shutdown_process, send_shutdown_signal, shutdown_all_processes, rapid_fails_per_minute_exceeded,
  open_handle, no_handle,
}
use iisintegration.ProcessManager.Rapid.{rapid_fails_per_minute_exceeded_lem}
use iisintegration.ProcessManager.Shutdown.{
  shutdown_process_lem, send_shutdown_signal_lem, after_stops, after_signals,
}
use iisintegration.ProcessManager.Serve.{get_process-Answers, Answers}
use iisintegration.ProcessManager.RoundRobin.{get_processes, get_processes-in_turn, turned}

abbrev config : Config
config = record { processes_per_application = 2; rapid_fails_per_minute = 10 }

abbrev first : Process
first = record { port = 5000; ready = true }

abbrev second : Process
second = record { port = 6000; ready = true }

abbrev working : System
working = record {
  tick_count = 20;
  list_memory = true;
  process_memory = true;
  initialized = s_ok;
  start = s_ok;
  started = first;
  wsa_startup = error_success;
  nul_file = none;
}

abbrev without_nul : System
without_nul = record working { nul_file = some error_invalid_data }

abbrev two_processes : Manager
two_processes = record {
  rapid_fail_count = 3;
  rapid_fail_tick_start = 4294967196;
  processes_per_application = 2;
  route_to_process_index = 4;
  server_process_list = some (some first ∷ some second ∷ []);
  list_ready = true;
  nul_handle = open_handle;
  lock = unlocked;
  calls = [];
}

rapid_fails_per_minute_exceeded_lem_example :
    rapid_fails_per_minute_exceeded ((4294967196 + 200) % 2 ^ 32) 2 two_processes
    ≡ (true, two_processes)
rapid_fails_per_minute_exceeded_lem_example =
    rapid_fails_per_minute_exceeded_lem 4294967196 200 2 two_processes (omega arith) refl
      (omega arith) (omega arith)

shutdown_process_lem_example :
    shutdown_process 6000 two_processes
    ≡ some (
      tt,
      record (after_stops (second ∷ []) two_processes) {
        server_process_list = some (some first ∷ none ∷ []);
      },
    )
shutdown_process_lem_example =
    shutdown_process_lem two_processes (some first ∷ some second ∷ []) refl refl refl 6000
      (omega arith)

send_shutdown_signal_lem_example :
    (send_shutdown_signal two_processes
      ≡ some (
        tt,
        record (after_signals (first ∷ second ∷ []) two_processes) {
          server_process_list = some (none ∷ none ∷ []);
        },
      ))
    × (shutdown_all_processes two_processes ≡ send_shutdown_signal two_processes)
send_shutdown_signal_lem_example =
    send_shutdown_signal_lem two_processes (some first ∷ some second ∷ []) refl refl refl

get_process-Answers_example : Answers 0 (get_process config working (new_manager 7))
unfolding new_manager
get_process-Answers_example =
    get_process-Answers config working (new_manager 7) (omega arith, inl refl) refl (omega arith)
      (omega arith)

first_started :
    (get_process config working (new_manager 7))
    ≡ some (
      (s_ok, some first),
      record two_processes {
        rapid_fail_count = 0;
        rapid_fail_tick_start = 7;
        route_to_process_index = 1;
        nul_handle = no_handle;
        server_process_list = some (none ∷ some first ∷ []);
      },
    )
unfolding new_manager get_process retire create_process
first_started = refl

get_processes-in_turn_example :
    get_processes config (working ∷ working ∷ working ∷ []) two_processes
    ≡ some (
      (s_ok, some second) ∷ (s_ok, some first) ∷ (s_ok, some second) ∷ [],
      turned 3 two_processes,
    )
get_processes-in_turn_example =
    get_processes-in_turn 2 config (some first ∷ some second ∷ []) refl (omega arith)
      (refl, (refl, tt)) (working ∷ working ∷ working ∷ []) two_processes refl refl refl refl
      (omega arith) (omega arith)
