-- ===== src/ServerProcess/Signal.antt =====
-- The graceful stop of a server process: SendSignal, SendShutDownSignalInternal and
-- SendShutdownHttpMessage of AspNetCoreModuleV2/RequestHandler/outofprocess/serverprocess.cxx.
use iisintegration.Prelude.{
  ℕ, Bool, not, ◌&&◌, List, [], ◌∷◌, ◌++◌, ltb, ◌==◌, if◌then◌else◌, length, codes,
}
use iisintegration.ServerProcess.{
  Text, Server, reference_server, dereference_server, terminate_backend_process,
  handle_process_exit,
}
use iisintegration.ServerProcess.Codes.{Code, failure, unspecified, first_failure, failed_code}

-- What the calls of WinHTTP return, in order, and the status of the response.
pub record MessageAnswers : Type 0 where
  pub open_session : Code
  pub connect_session : Code
  pub open_request : Code
  pub set_timeouts : Code
  pub write_headers : Code
  pub send_request : Code
  pub receive_response : Code
  pub query_status : Code
  pub status : ℕ

-- The path of the request; the copies into it, whose results are ignored, have memory.
abbrev pub shutdown_path : Text → Text
shutdown_path virtual_path =
    (if ltb 1 (length virtual_path) then virtual_path else []) ++ codes "/iisintegration"

abbrev pub shutdown_headers : Text → Text
shutdown_headers guid =
    codes "MS-ASPNETCORE-EVENT:shutdown \r\n" ++ (codes "MS-ASPNETCORE-TOKEN:" ++ guid)

unfoldable pub send_shutdown_http_message : MessageAnswers → Code
send_shutdown_http_message a =
    first_failure
      (a.open_session ∷ a.connect_session ∷ a.open_request ∷ a.set_timeouts ∷ a.write_headers
        ∷ a.send_request ∷ a.receive_response ∷ a.query_status ∷ [])
      (if a.status == 202 then a.query_status else failure unspecified)

-- AttachConsole of the process, and GenerateConsoleCtrlEvent.
pub record ConsoleAnswers : Type 0 where
  pub attached : Bool
  pub generated : Bool

-- `SendShutDownSignalInternal`, on its own thread.
unfoldable pub send_shutdown_signal_internal : MessageAnswers → ConsoleAnswers → Server → Server
unfolding send_shutdown_http_message terminate_backend_process dereference_server
send_shutdown_signal_internal m c s =
    let s1 = reference_server s in
    dereference_server (
      if failed_code (send_shutdown_http_message m) && not (c.attached && c.generated)
      then terminate_backend_process s1
      else s1)

-- Whether the process can be opened and the thread be created, whether the thread comes to its end before
-- the wait is over, and whether the process ends within the wait.
pub record SignalAnswers : Type 0 where
  pub opened_process : Bool
  pub thread_created : Bool
  pub thread_runs : Bool
  pub message : MessageAnswers
  pub console : ConsoleAnswers
  pub stopped_in_time : Bool

unfoldable pub run_thread : SignalAnswers → Server → Server
unfolding send_shutdown_signal_internal
run_thread a s = if a.thread_runs then send_shutdown_signal_internal a.message a.console s else s

-- A thread that is killed in the wait has done nothing here.
unfoldable pub wait_for_server : SignalAnswers → Server → Server
unfolding run_thread terminate_backend_process
wait_for_server a s =
    if not (a.opened_process && a.thread_created)
    then (terminate_backend_process s)
    else if not a.stopped_in_time
    then terminate_backend_process (run_thread a s)
    else run_thread a s

unfoldable pub send_server_signal : SignalAnswers → Server → Server
unfolding wait_for_server dereference_server
send_server_signal a s = dereference_server (wait_for_server a (reference_server s))

-- What may come to a server process, in any order.
pub data Event : Type 0 where
  process_exited : Bool → Event
  signalled : SignalAnswers → Event

unfoldable pub step_event : Event → Server → Server
unfolding handle_process_exit send_server_signal
step_event (process_exited up) s = handle_process_exit up s
step_event (signalled a) s = send_server_signal a s

unfoldable pub run_events : List Event → Server → Server
unfolding step_event
run_events [] s = s
run_events (e ∷ es) s = run_events es (step_event e s)
