-- ===== src/ServerProcess/Launch.antt =====
-- The start of a server process: StartProcess of
-- AspNetCoreModuleV2/RequestHandler/outofprocess/serverprocess.cxx. The records hold what the calls
-- out of a step return.
use iisintegration.Prelude.{
  ℕ, zero, suc, ◌+◌, Bool, false, not, ◌||◌, List, Option, none, some, if◌then◌else◌,
}
use iisintegration.ServerProcess.{
  Text, Server, Handle, is_null, call, clean_up, close_stdout, cancel_timer, log_start_success,
  log_start_error, log_start_failure,
}
use iisintegration.ServerProcess.Codes.{
  Code, success, failure, Reason, not_supported, last_error, failed_code,
}
use iisintegration.ServerProcess.Environment.{
  Table, EntryAnswers, TokenAnswers, OutputAnswers, setup_app_path, setup_app_token,
  output_environment_variables,
}
use iisintegration.ServerProcess.Variables.{
  InitAnswers, WebsocketAnswers, init_environment_variables_table, add_websocket_enabled,
}
use iisintegration.ServerProcess.Port.{PortAnswers, setup_listen_port}
use iisintegration.ServerProcess.Check.{
  CheckAnswers, Run, no_fuel, out_of_bounds, done, post_start_check,
}
use iisintegration.ServerProcess.Command.{
  CommandAnswers, JobAnswers, StdAnswers, code_of, setup_command_line, setup_job_object,
  setup_std_handles,
}

-- The process with its identifier, or the error of CreateProcessW.
pub data Created : Type 0 where
  created : Handle → ℕ → Created
  not_created : ℕ → Created

-- `assign` is the error of AssignProcessToJobObject, `resume` that of ResumeThread.
pub record Attempt : Type 0 where
  pub command : CommandAnswers
  pub init : InitAnswers
  pub websocket : WebsocketAnswers
  pub listen : PortAnswers
  pub path : EntryAnswers
  pub token : TokenAnswers
  pub environment : Option (List Text)
  pub output : OutputAnswers
  pub create : Created
  pub job : JobAnswers
  pub assign : Option Reason
  pub resume : Option ℕ
  pub fuel : ℕ
  pub check : CheckAnswers

-- A stage of an attempt: it reaches the next one, or it goes to `Failure` with the code, the
-- critical-error flag and the state; or it runs out of fuel, or writes outside an array.
pub data Stage (A : Type 0) : Type 0 where
  stuck faulted : Stage A
  gave_up : Code → Bool → Server → Stage A
  reached : A → Stage A

infixl 5 ◌>>=◌ ◌>>◌
abbrev pub ◌>>=◌ : {A B : Type 0} → Stage A → (A → Stage B) → Stage B
stuck >>= k = stuck
faulted >>= k = faulted
gave_up hr critical s >>= k = gave_up hr critical s
reached a >>= k = k a

abbrev pub ◌>>◌ : {B : Type 0} → Stage (Unit {0}) → Stage B → Stage B
m >> k = m >>= λ _. k

abbrev pub need : Code → Server → Stage (Unit {0})
need hr s = if failed_code hr then gave_up hr false s else reached tt

abbrev pub need_port : Option ((Code × Bool) × (Table × Server)) → Stage (Table × Server)
need_port none = stuck
need_port (some ((hr, critical), (t, s))) =
    if failed_code hr then gave_up hr critical s else reached (t, s)

abbrev pub need_created : Created → Server → Stage Server
need_created (not_created e) s = gave_up (failure (last_error e)) false s
need_created (created h pid) s = reached (record s { process = h; process_id = pid })

-- The assignment to the job, if there is one. ERROR_NOT_SUPPORTED is no failure here.
abbrev pub assigned_code : Option Reason → Handle → Code
assigned_code none job = success
assigned_code (some not_supported) job = success
assigned_code (some e) job = if is_null job then success else failure e

abbrev pub need_checked : Run (Code × Server) → Stage (Code × Server)
need_checked no_fuel = stuck
need_checked out_of_bounds = faulted
need_checked (done (hr, s)) = if failed_code hr then gave_up hr false s else reached (hr, s)

-- The environment of the new process, from the port on.
unfoldable pub after_port : (ℕ → ℕ) → Attempt → Table × Server → Stage (List Text × Server)
unfolding setup_app_path setup_app_token output_environment_variables
after_port lower a (t3, s3) = do
  let (hr4, t4) = setup_app_path lower a.path s3.settings.app_virtual_path t3
  need hr4 s3
  let (hr5, (t5, s5)) = setup_app_token lower a.token t4 s3
  need hr5 s5
  let (hr6, (out, t6)) = output_environment_variables lower a.output a.environment t5
  need hr6 s5
  reached (out, s5)

unfoldable pub prepare_environment : (ℕ → ℕ) → Attempt → Table → Server → Stage (List Text × Server)
unfolding init_environment_variables_table add_websocket_enabled setup_listen_port after_port
prepare_environment lower a configured s = do
  let (hr1, t1) = init_environment_variables_table lower a.init s.settings configured
  need hr1 s
  let (hr2, t2) = add_websocket_enabled lower a.websocket s.settings.websockets_enabled t1
  need hr2 s
  listening ← need_port (setup_listen_port a.listen lower t2 s)
  after_port lower a listening

-- What follows the creation of the process.
unfoldable pub after_created : Attempt → Server → Stage (Code × Server)
unfolding setup_job_object post_start_check
after_created a s = do
  let (hr, s1) = setup_job_object a.job s
  need hr s1
  need (assigned_code a.assign s1.job) s1
  need (code_of a.resume) s1
  need_checked (post_start_check a.fuel a.check s1)

unfoldable pub create_backend : Attempt → Server → Stage (Code × Server)
unfolding after_created
create_backend a s = do s1 ← need_created a.create s; after_created a s1

unfoldable pub attempt : (ℕ → ℕ) → Attempt → Table → Server → Stage (Code × Server)
unfolding setup_command_line prepare_environment create_backend
attempt lower a configured s = do
  let (hr, line) = setup_command_line a.command s.settings s.command_line
  let s1 = record s { port = 0; command_line = line }
  need hr s1
  (out, s2) ← prepare_environment lower a configured s1
  create_backend a s2

abbrev pub retry_count : ℕ
retry_count = 2

-- What `Failure` does before the next attempt.
unfoldable pub give_up_attempt : Server → Server
unfolding clean_up
give_up_attempt s = clean_up (call log_start_error s)

-- How the loop goes on after an attempt: `retry` is the rest of it.
unfoldable pub after_attempt :
    Stage (Code × Server) → (Code → Server → Run (Code × Server)) → Run (Code × Server)
unfolding give_up_attempt
after_attempt stuck retry = no_fuel
after_attempt faulted retry = out_of_bounds
after_attempt (reached (hr, s)) retry = done (hr, call log_start_success s)
after_attempt (gave_up hr critical s) retry =
    let rest = retry hr (give_up_attempt s) in
    if critical then done (hr, give_up_attempt s) else rest

-- The loop with `left` attempts left, the next one number `k`, from the code so far.
unfoldable pub run_attempts :
    ℕ → (ℕ → ℕ) → (ℕ → Attempt) → Table → ℕ → Code → Server → Run (Code × Server)
unfolding attempt after_attempt
run_attempts zero lower a configured k hr s = done (hr, s)
run_attempts (suc left) lower a configured k hr s =
    after_attempt (attempt lower (a k) configured s) (run_attempts left lower a configured (k + 1))

-- At `Finished`.
abbrev pub finish_start : Run (Code × Server) → Run (Code × Server)
finish_start (done (hr, s)) =
    let s1 = close_stdout s in
    let s2 = if s1.settings.stdout_log_enabled then call cancel_timer s1 else s1 in
    done (hr, (if failed_code hr || not s.ready then call log_start_failure s2 else s))
finish_start r = r

-- `StartProcess`; the attempt `k` is answered by `a k`.
unfoldable pub start_server :
    (ℕ → ℕ) → StdAnswers → (ℕ → Attempt) → Table → Server → Run (Code × Server)
unfolding setup_std_handles run_attempts
start_server lower std a configured s =
    finish_start (run_attempts retry_count lower a configured 0 success (setup_std_handles std s).1)
