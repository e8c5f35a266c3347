-- ===== src/ServerProcess/Once.antt =====
-- The calls that end a server process, counted: HandleProcessExit, TerminateBackendProcess and SendSignal of
-- AspNetCoreModuleV2/RequestHandler/outofprocess/serverprocess.cxx.
use iisintegration.Prelude.{
  ℕ, suc, ◌+◌, ◌-◌, ◌≤◌, ◌≡◌, refl, ◌∙◌, arith, Bool, true, false, not, ◌&&◌, List, [], ◌∷◌,
  if-both, if◌then◌else◌, ◌==◌,
}
use iisintegration.ServerProcess.Codes.{failed_code}
use iisintegration.ServerProcess.{
  dereference_process_manager, cancel_timer, delete_this, log_shutdown, unregister_wait, is_null,
  is_opened, Server, Handle, null, opened, invalid_value, Call, shutdown_process, log_ungraceful,
  terminate_process, call, reference_server, dereference_server, destroy, clean_up, kill_calls,
  close_calls, unregister_calls, each, drop_waits, kill_process, kill_children, drop_listening,
  drop_job, drop_connection, close_stdout, terminate_backend_process, handle_process_exit,
  drop_process_wait,
}
use iisintegration.ServerProcess.Signal.{
  send_shutdown_http_message, SignalAnswers, MessageAnswers, ConsoleAnswers,
  send_shutdown_signal_internal, run_thread, wait_for_server, send_server_signal, Event,
  process_exited, signalled, step_event, run_events,
}

-- The calls that end a process: its removal from the manager, and the `TerminateProcess` with the exit code 0 of
-- `TerminateBackendProcess`. `CleanUp`, which gives up what is left, has the exit code 1.
abbrev pub is_end : Call → Bool
is_end shutdown_process = true
is_end (terminate_process h code) = code == 0
is_end _ = false

abbrev pub count_ends : List Call → ℕ
count_ends [] = 0
count_ends (c ∷ cs) = let rest = count_ends cs in if is_end c then suc rest else rest

each-count_ends :
    (f : Handle → List Call → List Call)
    → ((h : Handle) (cs : List Call) → count_ends (f h cs) ≡ count_ends cs)
    → (hs : List Handle) (cs : List Call) → count_ends (each f hs cs) ≡ count_ends cs
each-count_ends f keep [] cs = refl
each-count_ends f keep (h ∷ hs) cs = each-count_ends f keep hs (f h cs) ∙ keep h cs

kill_calls-count_ends :
    (h : Handle) (cs : List Call) → count_ends (kill_calls 1 h cs) ≡ count_ends cs
kill_calls-count_ends null cs = refl
kill_calls-count_ends invalid_value cs = refl
kill_calls-count_ends (opened p) cs = refl

close_calls-count_ends :
    (h : Handle) (cs : List Call) → count_ends (close_calls h cs) ≡ count_ends cs
close_calls-count_ends null cs = refl
close_calls-count_ends invalid_value cs = refl
close_calls-count_ends (opened p) cs = refl

unregister_calls-count_ends :
    (h : Handle) (cs : List Call) → count_ends (unregister_calls h cs) ≡ count_ends cs
unregister_calls-count_ends null cs = refl
unregister_calls-count_ends invalid_value cs = refl
unregister_calls-count_ends (opened p) cs = refl

-- Nothing ends a process from `s` to `t`.
abbrev Quiet : Server → Server → Type 0
Quiet s t = (count_ends t.calls ≡ count_ends s.calls) × (t.stopping ≡ s.stopping)

Quiet-trans : (s t u : Server) → Quiet s t → Quiet t u → Quiet s u
Quiet-trans s t u (a, b) (c, d) = (c ∙ a, d ∙ b)

drop_connection-Quiet : (s : Server) → Quiet s (drop_connection s)
drop_connection-Quiet s = ground arith

kill_children-Quiet : (s : Server) → Quiet s (kill_children 1 s)
kill_children-Quiet s =
    (each-count_ends (kill_calls 1) kill_calls-count_ends s.children.handles s.calls, refl)

drop_waits-Quiet : (s : Server) → Quiet s (drop_waits s)
drop_waits-Quiet s = (
  each-count_ends unregister_calls unregister_calls-count_ends s.children.waits _
      ∙ unregister_calls-count_ends s.process_wait s.calls,
  refl,
)

clean_up-Quiet : (s : Server) → Quiet s (clean_up s)
unfolding clean_up
clean_up-Quiet s =
    let s1 = drop_waits s in
    let s2 = kill_process 1 s1 in
    let s3 = drop_listening s2 in
    let s4 = kill_children 1 s3 in
    let s5 = drop_job s4 in
    Quiet-trans s s1 (drop_connection s5) (drop_waits-Quiet s) (
      Quiet-trans s1 s2 (drop_connection s5) (kill_calls-count_ends s1.process s1.calls, refl)
        (Quiet-trans s2 s3 (drop_connection s5)
          (close_calls-count_ends s2.listening_process s2.calls, refl)
          (Quiet-trans s3 s4 (drop_connection s5) (kill_children-Quiet s3) (
            Quiet-trans s4 s5 (drop_connection s5) (close_calls-count_ends s4.job s4.calls, refl)
              (drop_connection-Quiet s5)))))

destroy-Quiet : (s : Server) → Quiet s (destroy s)
unfolding destroy
destroy-Quiet s =
    let s1 = clean_up s in
    let s2 =
      if s1.process_manager
      then (call dereference_process_manager (record s1 { process_manager = false }))
      else s1 in
    let s3 = close_stdout s2 in
    let s4 = if s3.settings.stdout_log_enabled then call cancel_timer s3 else s3 in
    Quiet-trans s s1 s4 (clean_up-Quiet s) (
      Quiet-trans s1 s2 s4
        (if-both (Quiet s1) s1.process_manager _ _ (λ _. (refl, refl)) (λ _. (refl, refl)))
        (Quiet-trans s2 s3 s4 (close_calls-count_ends s2.stdout s2.calls, refl)
          (if-both (Quiet s3) s3.settings.stdout_log_enabled _ _ (λ _. (refl, refl))
            (λ _. (refl, refl)))))

dereference_server-Quiet : (s : Server) → Quiet s (dereference_server s)
unfolding dereference_server
dereference_server-Quiet s =
    let s1 : Server = record s { references = s.references - 1 } in
    if-both (Quiet s) (s.references == 1) _ _
      (λ _. Quiet-trans s s1 (call delete_this (destroy s1)) (refl, refl) (destroy-Quiet s1))
      (λ _. (refl, refl))

abbrev ended : Bool → ℕ
ended true = 1
ended false = 0

-- The process has ended once at most since there were `n` ends, and only if it is stopping.
abbrev pub IsEndedOnce : ℕ → Server → Type 0
IsEndedOnce n s = count_ends s.calls ≤ n + ended s.stopping

Quiet-IsEndedOnce : (n : ℕ) (s t : Server) → Quiet s t → IsEndedOnce n s → IsEndedOnce n t
Quiet-IsEndedOnce n s t (c, k) h = rw (c, k) h

dereference_server-IsEndedOnce :
    (n : ℕ) (s : Server) → IsEndedOnce n s → IsEndedOnce n (dereference_server s)
dereference_server-IsEndedOnce n s h =
    Quiet-IsEndedOnce n s (dereference_server s) (dereference_server-Quiet s) h

drop_process_wait-Quiet : (s : Server) → Quiet s (drop_process_wait s)
unfolding drop_process_wait
drop_process_wait-Quiet s =
    let s1 = call (unregister_wait s.process_wait) s in
    let s2 = dereference_server s1 in
    if-both (Quiet s) (is_null s.process_wait) _ _ (λ _. (refl, refl))
      (λ _.
        Quiet-trans s s1 (record s2 { process_wait = null }) (refl, refl)
          (dereference_server-Quiet s1))

terminate_backend_process-IsEndedOnce :
    (n : ℕ) (s : Server) → IsEndedOnce n s → IsEndedOnce n (terminate_backend_process s)
unfolding terminate_backend_process
terminate_backend_process-IsEndedOnce n s h =
    let s1 : Server = record s { stopping = true } in
    let s2 = drop_process_wait s1 in
    if-both (IsEndedOnce n) s.stopping _ _ (λ _. h)
      (λ running.
        let (c, k) = drop_process_wait-Quiet s1 in
        if-both (λ (t : Server). IsEndedOnce n (call log_ungraceful t)) (is_opened s2.process) _ _
          (λ _. ground arith) (λ _. ground arith))

handle_process_exit-IsEndedOnce :
    (n : ℕ) (up : Bool) (s : Server) → IsEndedOnce n s → IsEndedOnce n (handle_process_exit up s)
unfolding handle_process_exit
handle_process_exit-IsEndedOnce n up s h =
    let s1 : Server = record s { stopping = true } in
    let s2 = if up then s1 else call shutdown_process (call log_shutdown s1) in
    if-both (IsEndedOnce n) s.stopping _ _ (λ _. h)
      (λ running.
        dereference_server-IsEndedOnce n s2
          (if-both (IsEndedOnce n) up _ _ (λ _. ground arith) (λ _. ground arith)))

send_shutdown_signal_internal-IsEndedOnce :
    (n : ℕ) (m : MessageAnswers) (c : ConsoleAnswers) (s : Server)
    → IsEndedOnce n s
    → IsEndedOnce n (send_shutdown_signal_internal m c s)
unfolding send_shutdown_signal_internal
send_shutdown_signal_internal-IsEndedOnce n m c s h =
    let s1 = reference_server s in
    let b = failed_code (send_shutdown_http_message m) && not (c.attached && c.generated) in
    dereference_server-IsEndedOnce n (if b then terminate_backend_process s1 else s1)
      (if-both (IsEndedOnce n) b _ _ (λ _. terminate_backend_process-IsEndedOnce n s1 h) (λ _. h))

run_thread-IsEndedOnce :
    (n : ℕ) (a : SignalAnswers) (s : Server) → IsEndedOnce n s → IsEndedOnce n (run_thread a s)
unfolding run_thread
run_thread-IsEndedOnce n a s h =
    if-both (IsEndedOnce n) a.thread_runs _ _
      (λ _. send_shutdown_signal_internal-IsEndedOnce n a.message a.console s h) (λ _. h)

wait_for_server-IsEndedOnce :
    (n : ℕ) (a : SignalAnswers) (s : Server) → IsEndedOnce n s → IsEndedOnce n (wait_for_server a s)
unfolding wait_for_server
wait_for_server-IsEndedOnce n a s h =
    if-both (IsEndedOnce n) (not (a.opened_process && a.thread_created)) _ _
      (λ _. terminate_backend_process-IsEndedOnce n s h)
      (λ _.
        if-both (IsEndedOnce n) (not a.stopped_in_time) _ _
          (λ _.
            terminate_backend_process-IsEndedOnce n (run_thread a s)
              (run_thread-IsEndedOnce n a s h))
          (λ _. run_thread-IsEndedOnce n a s h))

send_server_signal-IsEndedOnce :
    (n : ℕ) (a : SignalAnswers) (s : Server)
    → IsEndedOnce n s
    → IsEndedOnce n (send_server_signal a s)
unfolding send_server_signal
send_server_signal-IsEndedOnce n a s h =
    dereference_server-IsEndedOnce n (wait_for_server a (reference_server s))
      (wait_for_server-IsEndedOnce n a (reference_server s) h)

-- Whatever exits of its processes and stop signals a server process gets, in any order, ShutdownProcess of its
-- manager and the TerminateProcess of TerminateBackendProcess, which has the exit code 0, are called once at most
-- taken together, and only when the process is marked as stopping. It may start with `n` such calls in its log, and one
-- more if it is stopping already. The TerminateProcess of CleanUp, which has the exit code 1, is not counted.
pub run_events-IsEndedOnce :
    (n : ℕ) (es : List Event) (s : Server) → IsEndedOnce n s → IsEndedOnce n (run_events es s)
unfolding run_events step_event
run_events-IsEndedOnce n [] s h = h
run_events-IsEndedOnce n (process_exited up ∷ es) s h =
    run_events-IsEndedOnce n es _ (handle_process_exit-IsEndedOnce n up s h)
run_events-IsEndedOnce n (signalled a ∷ es) s h =
    run_events-IsEndedOnce n es _ (send_server_signal-IsEndedOnce n a s h)
