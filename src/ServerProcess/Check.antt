-- ===== src/ServerProcess/Check.antt =====
-- What follows the creation of the process:
-- PostStartCheck of AspNetCoreModuleV2/RequestHandler/outofprocess/serverprocess.cxx.
use iisintegration.Prelude.{
  ℕ, zero, suc, ◌+◌, Bool, true, false, not, ◌&&◌, ◌||◌, List, Option, none, some, ltb, ◌==◌,
  if◌then◌else◌, get_or, set,
}
use iisintegration.ProcessManager.{elapsed}
use iisintegration.ServerProcess.{
  Server, Handle, null, is_null, drop_connection, register_process_wait,
}
use iisintegration.ServerProcess.Codes.{
  Code, success, failure, out_of_memory, activation_exec_failure, activation_timed_out,
  create_failed, failed_code,
}
use iisintegration.ServerProcess.Port.{Probe, check_if_server_is_up}
use iisintegration.ServerProcess.Jobs.{
  JobAnswer, get_child_process_handles, is_debugger_is_attached, or_false,
}

-- `GetExitCodeProcess`: it fails, the process runs, or it has ended.
pub data ExitCode : Type 0 where
  no_exit_code still_active : ExitCode
  exit_code : ℕ → ExitCode

abbrev pub has_ended : ExitCode → Bool
has_ended (exit_code n) = true
has_ended _ = false

-- What the calls of one round of the wait return.
pub record Poll : Type 0 where
  pub exit : ExitCode
  pub exit_again : ExitCode
  pub probe : Probe
  pub job : ℕ → JobAnswer
  pub present : ℕ → Option Bool
  pub tick : ℕ

-- What the calls of PostStartCheck return, in order.
pub record CheckAnswers : Type 0 where
  pub first_debugger : Option Bool
  pub start_tick : ℕ
  pub poll : ℕ → Poll
  pub register : ℕ
  pub later_debugger : Option Bool
  pub nsi : Bool
  pub worker : ℕ
  pub child_job : ℕ → JobAnswer
  pub open_child : ℕ → Handle
  pub child_debugger : Option Bool
  pub register_child : ℕ
  pub final_probe : Probe
  pub connection_memory : Bool
  pub connection_initialized : Code
  pub listening : Handle

-- How the wait ends: with the owner of the port, and with whether a debugger is attached.
pub data Waited : Type 0 where
  ended_early : Bool → Waited
  came_up : ℕ → Bool → Waited
  gave_up_waiting : Bool → Waited

-- The wait from round `k` on. `none` means that the fuel ran out.
unfoldable pub await_ready : ℕ → CheckAnswers → ℕ → ℕ → Bool → ℕ → Option Waited
unfolding check_if_server_is_up is_debugger_is_attached
await_ready zero a port limit debugger k = none
await_ready (suc f) a port limit debugger k =
    let p = a.poll k in
    let check = check_if_server_is_up p.probe port in
    let debugger' = is_debugger_is_attached a.worker p.job p.present in
    let rest = await_ready f a port limit debugger' (k + 1) in
    if has_ended p.exit && has_ended p.exit_again
    then some (ended_early debugger)
    else if check.up
    then some (came_up check.pid debugger')
    else if ltb (elapsed p.tick a.start_tick) limit || debugger'
    then rest
    else some (gave_up_waiting debugger')

-- A run that may not end within its fuel, or that may write outside an array.
pub data Run (A : Type 0) : Type 0 where
  no_fuel out_of_bounds : Run A
  done : A → Run A

-- At `Finished`.
abbrev pub finish_check : Code → Bool → Server → Run (Code × Server)
finish_check hr debugger s =
    let s1 = record s { debugger_attached = debugger } in
    done (hr, (if failed_code hr then drop_connection s1 else s1))

-- The connection, the listening process and the mark.
abbrev pub set_ready : CheckAnswers → Bool → Server → Run (Code × Server)
set_ready a debugger s = finish_check success debugger (record s {
  ready = true;
  listening_process = if a.nsi then a.listening else s.listening_process;
})

abbrev pub connect_with : Option ℕ → CheckAnswers → Bool → Server → Run (Code × Server)
connect_with (some p) a debugger s = set_ready a debugger s
connect_with none a debugger s =
    let s1 = record s { connection = some s.port } in
    if not a.connection_memory
    then finish_check (failure out_of_memory) debugger s
    else if failed_code a.connection_initialized
    then finish_check a.connection_initialized debugger s1
    else set_ready a debugger s1

abbrev pub connect : CheckAnswers → Bool → Server → Run (Code × Server)
connect a debugger s = connect_with s.connection a debugger s

-- The last check, for a child that listens. Its code is the result also where it is no failure.
abbrev pub check_child : CheckAnswers → Bool → Server → Run (Code × Server)
unfolding check_if_server_is_up
check_child a debugger s =
    let check = check_if_server_is_up a.final_probe s.port in
    if failed_code check.code || not check.up
    then finish_check check.code debugger s
    else connect a debugger s

-- The first of `left` children, from the number `i` on, with the identifier.
abbrev pub find_child : ℕ → ℕ → ℕ → List ℕ → Option ℕ
find_child zero i pid ids = none
find_child (suc left) i pid ids =
    if pid == get_or ids i 0 then some i else find_child left (i + 1) pid ids

unfoldable pub watch_child : CheckAnswers → Bool → ℕ → ℕ → Server → Run (Code × Server)
unfolding register_process_wait
watch_child a debugger pid i s =
    let s1 = record s { listening_process_id = pid } in
    let h = get_or s.children.handles i null in
    let debugger' = debugger || or_false a.child_debugger in
    let ((hr, w), s2) = register_process_wait a.register_child h s1 in
    let s3 = record s2 { children = record s2.children { waits = set s2.children.waits i w } } in
    if is_null h
    then connect a debugger s1
    else if failed_code hr
    then finish_check hr debugger' s3
    else check_child a debugger' s3

unfoldable pub match_found : CheckAnswers → Bool → ℕ → Server → Option ℕ → Run (Code × Server)
unfolding watch_child
match_found a debugger pid s none = finish_check (failure create_failed) debugger s
match_found a debugger pid s (some i) = watch_child a debugger pid i s

unfoldable pub match_handles :
    CheckAnswers → Bool → ℕ → Option (Code × Server) → Run (Code × Server)
unfolding match_found
match_handles a debugger pid none = out_of_bounds
match_handles a debugger pid (some (hr, s)) =
    if failed_code hr
    then finish_check hr debugger s
    else match_found a debugger pid s (find_child s.children.count 0 pid s.children.ids)

-- The process itself does not own the port.
unfoldable pub match_child : CheckAnswers → Bool → ℕ → Server → Run (Code × Server)
unfolding get_child_process_handles match_handles
match_child a debugger pid s =
    match_handles a debugger pid (get_child_process_handles a.worker a.child_job a.open_child s)

unfoldable pub after_ready : CheckAnswers → Bool → ℕ → Server → Run (Code × Server)
unfolding register_process_wait match_child
after_ready a debugger pid s =
    let ((hr, w), s1) = register_process_wait a.register s.process s in
    let s2 = record s1 { process_wait = w } in
    let debugger' = debugger || or_false a.later_debugger in
    if failed_code hr
    then finish_check hr debugger s2
    else if not a.nsi
    then connect a debugger' s2
    else if pid == s2.process_id
    then connect a debugger' (record s2 { listening_process_id = s2.process_id })
    else match_child a debugger' pid s2

unfoldable pub after_wait : CheckAnswers → Server → Option Waited → Run (Code × Server)
unfolding after_ready
after_wait a s none = no_fuel
after_wait a s (some (ended_early d)) = finish_check (failure activation_exec_failure) d s
after_wait a s (some (gave_up_waiting d)) = finish_check (failure activation_timed_out) d s
after_wait a s (some (came_up pid d)) = after_ready a d pid s

unfoldable pub post_start_check : ℕ → CheckAnswers → Server → Run (Code × Server)
unfolding await_ready after_wait
post_start_check fuel a s =
    after_wait a s
      (await_ready fuel a s.port s.settings.startup_time_limit (or_false a.first_debugger) 0)
