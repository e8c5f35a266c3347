-- ===== src/ServerProcess/Command.antt =====
-- What comes before the process is created: Initialize, SetupCommandLine, SetupJobObject and
-- SetupStdHandles, and SetWindowsAuthToken, of
-- AspNetCoreModuleV2/RequestHandler/outofprocess/serverprocess.cxx.
use iisintegration.Prelude.{
  true, false, List, ℕ, Bool, false, not, ◌||◌, [], ◌∷◌, ◌++◌, Option, none, some, ◌==◌,
  if◌then◌else◌,
}
use iisintegration.ServerProcess.{
  Text, Server, Settings, Handle, invalid_value, is_null, is_opened, call, close_stdout,
  start_timer,
}
use iisintegration.ServerProcess.Codes.{
  first_failure, Code, success, failure, out_of_memory, invalid_parameter, last_error, failed_code,
}

abbrev pub contains : ℕ → Text → Bool
contains c [] = false
contains c (d ∷ t) = d == c || contains c t

-- `full_path` is what `_wfullpath` makes of the path, `readable` whether the file can be opened.
pub record CommandAnswers : Type 0 where
  pub copy_relative : Code
  pub path_memory : Bool
  pub full_path : Option Text
  pub readable : Bool
  pub copy_path : Code
  pub append_space : Code
  pub append_arguments : Code

-- The path to run, or the code of a failure.
abbrev pub choose_path : CommandAnswers → Text → Code × Text
choose_path a path =
    if contains 58 path || contains 37 path
    then (success, path)
    else if failed_code a.copy_relative
    then (a.copy_relative, path)
    else if not a.path_memory
    then (failure out_of_memory, path)
    else elim a.full_path [
      | none ↦ (failure invalid_parameter, path)
      | some full ↦ (success, (if a.readable then full else path))
    ]

-- A step that fails leaves what the steps before it have written.
abbrev pub write_command : CommandAnswers → Text → Text → Code × Text
write_command a path arguments =
    if failed_code a.copy_path
    then (a.copy_path, [])
    else if failed_code a.append_space
    then (a.append_space, path)
    else if failed_code a.append_arguments
    then (a.append_arguments, path ++ (32 ∷ []))
    else (a.append_arguments, path ++ (32 ∷ arguments))

-- `SetupCommandLine(&m_struCommandLine)`
unfoldable pub setup_command_line : CommandAnswers → Settings → Text → Code × Text
setup_command_line a g (c ∷ line) = (success, c ∷ line)
setup_command_line a g [] =
    let (hr, path) = choose_path a g.process_path in
    if failed_code hr then (hr, []) else write_command a path g.arguments

-- What CreateJobObject returns (0xdeadbeef counts as NULL) and the error of SetInformationJobObject.
pub record JobAnswers : Type 0 where
  pub create : Handle
  pub set_information : Option ℕ

abbrev pub code_of : Option ℕ → Code
code_of none = success
code_of (some e) = failure (last_error e)

unfoldable pub setup_job_object : JobAnswers → Server → Code × Server
setup_job_object a s =
    if is_null s.job
    then (
      (if is_null a.create then success else code_of a.set_information),
      record s { job = a.create },
    )
    else (success, s)

-- The settings of `g`, with the texts that the copies have left.
abbrev pub with_texts : Settings → Settings → Settings
with_texts left g = record g {
  process_path = left.process_path;
  log_file = left.log_file;
  physical_path = left.physical_path;
  app_full_path = left.app_full_path;
  app_virtual_path = left.app_virtual_path;
  arguments = left.arguments;
}

-- `Initialize`, with the codes of the copies and what they leave of the texts where one fails. The table of
-- variables is an argument of the start.
unfoldable pub initialize_server :
    List Code → Settings → JobAnswers → Settings → Server → Code × Server
unfolding setup_job_object
initialize_server copies left job g s =
    let s1 = record s {
      settings = with_texts left g;
      process_manager = true;
      debugger_attached = false;
    } in
    let hr = first_failure copies success in
    if failed_code hr then (hr, s1) else setup_job_object job (record s1 { settings = g })

-- `SetWindowsAuthToken`, with the error of DuplicateHandle.
unfoldable pub set_windows_auth_token : Option ℕ → Server → Code
set_windows_auth_token duplicated s =
    if is_opened s.listening_process then code_of duplicated else success

-- What SetupStdHandles meets: CloseHandle of the old log, the path, the name and the directory of
-- the new one, and the file or the error.
pub record StdAnswers : Type 0 where
  pub close_old : Option ℕ
  pub full_path : Code
  pub file_name : Code
  pub directory : Code
  pub file : Handle
  pub file_error : ℕ

abbrev pub open_log : StdAnswers → Server → (Code × Handle) × Server
open_log a s =
    if failed_code a.full_path
    then ((a.full_path, invalid_value), s)
    else if failed_code a.file_name
    then ((a.file_name, invalid_value), s)
    else if failed_code a.directory
    then ((a.directory, invalid_value), s)
    else if is_opened a.file
    then ((a.directory, a.file), call start_timer (record s { stdout = a.file }))
    else ((failure (last_error a.file_error), invalid_value), record s { stdout = invalid_value })

-- With the handle for the output of the new process.
unfoldable pub setup_std_handles : StdAnswers → Server → (Code × Handle) × Server
setup_std_handles a s =
    if not s.settings.stdout_log_enabled
    then ((success, invalid_value), s)
    else if not (is_opened s.stdout)
    then open_log a s
    else elim a.close_old [
      | some e ↦ ((failure (last_error e), invalid_value), s)
      | none ↦ open_log a (close_stdout s)
    ]
