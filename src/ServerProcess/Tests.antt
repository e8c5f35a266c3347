-- ===== src/ServerProcess/Tests.antt =====
-- Starts and stops of a server process at concrete answers.
use iisintegration.Prelude.{
  ℕ, ◌+◌, ◌≡◌, ◌≢◌, refl, arith, Bool, true, false, List, [], ◌∷◌, Option, none, some, codes,
}
use iisintegration.ServerProcess.{
  Server, opened, register_process_wait, clean_up, dereference_server,
}
use iisintegration.ServerProcess.Codes.{
  Code, success, failure, rpc_status, invalid_argument, create_failed,
}
use iisintegration.ServerProcess.Environment.{
  OutputAnswers, merge, output_environment_variables, setup_app_token, setup_app_path,
}
use iisintegration.ServerProcess.Variables.{init_environment_variables_table, add_websocket_enabled}
use iisintegration.ServerProcess.Port.{
  PortResult, max_retry, get_random_port, check_if_server_is_up, setup_listen_port,
}
use iisintegration.ServerProcess.Listen.{IsListening, setup_listen_port-IsListening}
use iisintegration.ServerProcess.Draw.{IsDrawn, IsFree, get_random_port-IsDrawn}
use iisintegration.ServerProcess.Check.{
  CheckAnswers, Run, no_fuel, out_of_bounds, done, post_start_check, after_wait, await_ready,
  after_ready, match_child, match_handles, match_found, watch_child,
}
use iisintegration.ServerProcess.Jobs.{
  get_child_process_handles, query_job, is_debugger_is_attached,
}
use iisintegration.ServerProcess.Ready.{IsChecked, post_start_check-IsChecked}
use iisintegration.ServerProcess.Launch.{
  attempt, start_server, run_attempts, after_attempt, give_up_attempt, prepare_environment,
  after_port, create_backend, after_created,
}
use iisintegration.ServerProcess.Command.{setup_std_handles, setup_command_line, setup_job_object}
use iisintegration.ServerProcess.Started.{IsStarted, start_server-IsStarted}
use iisintegration.ServerProcess.Signal.{
  process_exited, signalled, SignalAnswers, MessageAnswers, run_events,
}
use iisintegration.ServerProcess.Waiting.{post_start_check-ends}
use iisintegration.ServerProcess.Once.{IsEndedOnce, run_events-IsEndedOnce}
use iisintegration.ServerProcess.Merged.{output_environment_variables-lookup_text}
use iisintegration.ServerProcess.Names.{lookup_text, or_else}
use iisintegration.ServerProcess.Samples.{
  attempt_with, check_answers, configured, good_entry, healthy, no_log, nobody, port_answers,
  same_case, server,
}

abbrev code_and_ready : Run (Code × Server) → Option (Code × Bool)
code_and_ready (done (hr, s)) = some (hr, s.ready)
code_and_ready _ = none

-- A start whose attempts all get these answers.
start_with : CheckAnswers → Run (Code × Server)
unfolding start_server run_attempts after_attempt attempt setup_std_handles setup_command_line
    prepare_environment init_environment_variables_table add_websocket_enabled setup_listen_port
    after_port setup_app_path setup_app_token output_environment_variables merge create_backend
    after_created setup_job_object post_start_check after_wait await_ready check_if_server_is_up
    is_debugger_is_attached query_job after_ready register_process_wait match_child match_handles
    match_found watch_child get_child_process_handles give_up_attempt clean_up dereference_server
start_with check = start_server same_case no_log (λ k. attempt_with check) configured server

healthy_start : code_and_ready (start_with (check_answers [] 77 nobody)) ≡ some (success, true)
unfolding start_with
healthy_start = refl

-- A child listens, and is gone at the last check: a success, and the server is not ready.
lost_child : code_and_ready (start_with (check_answers (78 ∷ []) 78 nobody)) ≡ some (success, false)
unfolding start_with
lost_child = refl

abbrev fifteen : List ℕ
fifteen = 2 ∷ 3 ∷ 4 ∷ 5 ∷ 6 ∷ 7 ∷ 8 ∷ 9 ∷ 10 ∷ 11 ∷ 12 ∷ 13 ∷ 14 ∷ 15 ∷ 16 ∷ []

-- The children of the first attempt are still counted in the second.
too_many_children : start_with (check_answers fifteen 99 nobody) ≡ out_of_bounds
unfolding start_with
too_many_children = refl

-- A variable for the port with the empty value is refused.
empty_port :
    setup_listen_port port_answers same_case
      (record { name = codes "ASPNETCORE_PORT="; value = [] } ∷ [])
      server
    ≡ some (
      (failure invalid_argument, true),
      (record { name = codes "ASPNETCORE_PORT="; value = [] } ∷ [], server),
    )
unfolding setup_listen_port
empty_port = refl

-- The RPC status of a failed UuidCreate is no failure, and the table gets no token.
no_token :
    setup_app_token same_case
      (record {
        copy_user = success;
        uuid_create = some 1824;
        uuid_to_string = none;
        uuid = [];
        copy_uuid = success;
        copy_token = success;
        entry = good_entry;
      })
      []
      server
    ≡ (rpc_status 1824, ([], server))
unfolding setup_app_token
no_token = refl

-- The reference of a wait that is unregistered before a retry stays.
kept_reference :
    (clean_up
      (record (register_process_wait 1 (opened 7) server).1 { process_wait = opened 7 })).references
    ≡ 2
unfolding clean_up register_process_wait
kept_reference = refl

get_random_port-IsDrawn_example :
    (r : Code × ℕ) × (get_random_port 1 true (λ k. 3974 + k) (λ j. nobody) 0 ≡ some r)
    × IsDrawn (λ k. 3974 + k) r.1
    × (true ≡ true → IsFree (λ j. nobody) 0 max_retry r.0 r.1)
get_random_port-IsDrawn_example =
    get_random_port-IsDrawn 0 true (λ k. 3974 + k) (λ j. nobody) 0 (omega arith)

setup_listen_port-IsListening_example :
    (r : PortResult) × (setup_listen_port port_answers same_case configured server ≡ some r)
    × IsListening same_case server r
setup_listen_port-IsListening_example =
    setup_listen_port-IsListening port_answers 0 same_case configured server refl

post_start_check-IsChecked_example :
    IsChecked
      (check_answers [] 77 nobody)
      server
      (post_start_check 1 (check_answers [] 77 nobody) server)
post_start_check-IsChecked_example =
    post_start_check-IsChecked 1 (check_answers [] 77 nobody) server (refl, refl, omega arith)

start_server-IsStarted_example :
    IsStarted healthy server (start_server same_case no_log healthy configured server)
start_server-IsStarted_example =
    start_server-IsStarted same_case no_log healthy configured server (λ k. (0, refl))
      (refl, refl, omega arith)

post_start_check-ends_example :
    (post_start_check 1 (check_answers [] 77 nobody) server ≢ no_fuel)
    × ((more : ℕ)
        → post_start_check (1 + more) (check_answers [] 77 nobody) server
          ≡ post_start_check 1 (check_answers [] 77 nobody) server)
unfolding is_debugger_is_attached query_job
post_start_check-ends_example =
    post_start_check-ends 1 (check_answers [] 77 nobody) server (refl, refl, omega arith)
      (0, omega arith, omega arith, refl)

abbrev silent : MessageAnswers
silent = record {
  open_session = success;
  connect_session = failure create_failed;
  open_request = success;
  set_timeouts = success;
  write_headers = success;
  send_request = success;
  receive_response = success;
  query_status = success;
  status = 0;
}

abbrev no_console : SignalAnswers
no_console = record {
  opened_process = true;
  thread_created = true;
  thread_runs = true;
  message = silent;
  console = record { attached = false; generated = false };
  stopped_in_time = false;
}

run_events-IsEndedOnce_example :
    IsEndedOnce 0
      (run_events (signalled no_console ∷ process_exited false ∷ signalled no_console ∷ []) server)
run_events-IsEndedOnce_example =
    run_events-IsEndedOnce 0
      (signalled no_console ∷ process_exited false ∷ signalled no_console ∷ []) server (omega arith)

abbrev output_answers : OutputAnswers
output_answers = record {
  copy_name = λ n. success;
  append_value = λ v. success;
  memory = λ t. true;
}

output_environment_variables-lookup_text_example :
    lookup_text same_case
      (codes "A=")
      (output_environment_variables same_case output_answers
        (some (codes "A=1" ∷ codes "B=2" ∷ []))
        (record { name = codes "A="; value = codes "3" } ∷ [])).1.0
    ≡ or_else (some (codes "3")) (some (codes "1"))
unfolding output_environment_variables merge
output_environment_variables-lookup_text_example =
    output_environment_variables-lookup_text output_answers same_case (codes "A=")
      (codes "A=1" ∷ codes "B=2" ∷ []) (record { name = codes "A="; value = codes "3" } ∷ [])
      (λ x. refl) (refl, tt) refl
