-- ===== src/ServerProcess.antt =====
-- SERVER_PROCESS of AspNetCoreModuleV2/RequestHandler/outofprocess/serverprocess.cxx and
-- serverprocess.h: its state, and the operations that give up what a start has left. What they call
-- on Windows and on other objects goes to a log, the latest call first.
pub mod Codes
pub mod Environment
pub mod Port
pub mod Jobs
pub mod Check
pub mod Variables
pub mod Command
pub mod Launch
pub mod Draw
pub mod Listen
pub mod Fits
pub mod Watch
pub mod Kept
pub mod Ready
pub mod Stages
pub mod Attempt
pub mod Waiting
pub mod Started
pub mod Signal
pub mod Once
pub mod Names
pub mod Merged
mod Samples
mod Tests
use iisintegration.Prelude.{
  ℕ, zero, suc, ◌+◌, ◌-◌, Bool, true, false, not, ◌&&◌, List, [], ◌∷◌, ◌++◌, Option, none, some,
  ◌==◌, leb, if◌then◌else◌, replicate,
}
use iisintegration.ServerProcess.Codes.{Code, success, failure, Reason, nt_status, failed_code}

-- A text by the codes of its characters.
abbrev pub Text : Type 0
Text = List ℕ

abbrev pub max_active_child_processes : ℕ
max_active_child_processes = 16

-- NULL, INVALID_HANDLE_VALUE, or a handle of the object with the number.
pub data Handle : Type 0 where
  null invalid_value : Handle
  opened : ℕ → Handle

abbrev pub is_null : Handle → Bool
is_null null = true
is_null _ = false

abbrev pub is_opened : Handle → Bool
is_opened (opened n) = true
is_opened _ = false

-- `terminate_process` has the exit code.
pub data Call : Type 0 where
  terminate_process : Handle → ℕ → Call
  close_handle : Handle → Call
  unregister_wait register_wait : Handle → Call
  dereference_connection increment_rapid_fail_count shutdown_process : Call
  dereference_process_manager start_timer cancel_timer delete_this : Call
  log_shutdown log_ungraceful log_start_success log_start_error log_start_failure : Call

-- The settings that `Initialize` copies.
pub record Settings : Type 0 where
  pub process_path : Text
  pub arguments : Text
  pub log_file : Text
  pub physical_path : Text
  pub app_full_path : Text
  pub app_virtual_path : Text
  pub startup_time_limit : ℕ
  pub shutdown_time_limit : ℕ
  pub stdout_log_enabled : Bool
  pub windows_auth_enabled : Bool
  pub basic_auth_enabled : Bool
  pub anonymous_auth_enabled : Bool
  pub websockets_enabled : Bool

-- The three arrays of sixteen. A wait is the handle that it waits on.
pub record Children : Type 0 where
  pub count : ℕ
  pub ids : List ℕ
  pub handles : List Handle
  pub waits : List Handle

-- `connection` is the port of the FORWARDER_CONNECTION, `none` for NULL.
pub record Server : Type 0 where
  pub settings : Settings
  pub ready : Bool
  pub debugger_attached : Bool
  pub stopping : Bool
  pub references : ℕ
  pub port : ℕ
  pub port_text : Text
  pub command_line : Text
  pub guid : Text
  pub process_id : ℕ
  pub listening_process_id : ℕ
  pub process : Handle
  pub listening_process : Handle
  pub process_wait : Handle
  pub stdout : Handle
  pub job : Handle
  pub children : Children
  pub connection : Option ℕ
  pub process_manager : Bool
  pub calls : List Call

abbrev pub call : Call → Server → Server
call c s = record s { calls = c ∷ s.calls }

abbrev pub no_children : Children
no_children = record {
  count = 0;
  ids = replicate max_active_child_processes 0;
  handles = replicate max_active_child_processes null;
  waits = replicate max_active_child_processes null;
}

-- The constructor, which leaves the other fields as it finds them in `memory`.
unfoldable pub new_server : Server → Server
new_server memory = record memory {
  references = 1;
  process = null;
  process_wait = null;
  process_id = 0;
  ready = false;
  stopping = false;
  stdout = null;
  settings = record memory.settings { stdout_log_enabled = false };
  job = null;
  connection = none;
  listening_process_id = 0;
  listening_process = null;
  children = no_children;
}

-- `if (h != NULL) { if (h != INVALID_HANDLE_VALUE) CloseHandle(h); h = NULL; }`
abbrev pub close_calls : Handle → List Call → List Call
close_calls (opened n) cs = close_handle (opened n) ∷ cs
close_calls _ cs = cs

-- The same, with `TerminateProcess` first.
abbrev pub kill_calls : ℕ → Handle → List Call → List Call
kill_calls code (opened n) cs = close_handle (opened n) ∷ terminate_process (opened n) code ∷ cs
kill_calls code _ cs = cs

abbrev pub unregister_calls : Handle → List Call → List Call
unregister_calls null cs = cs
unregister_calls h cs = unregister_wait h ∷ cs

-- A loop over an array of handles.
abbrev pub each : (Handle → List Call → List Call) → List Handle → List Call → List Call
each f [] cs = cs
each f (h ∷ hs) cs = each f hs (f h cs)

abbrev pub all_null : List Handle → List Handle
all_null [] = []
all_null (h ∷ hs) = null ∷ all_null hs

-- An identifier is reset where the handle is not NULL.
abbrev pub reset_ids : List Handle → List ℕ → List ℕ
reset_ids (h ∷ hs) (d ∷ ds) = (if is_null h then d else 0) ∷ reset_ids hs ds
reset_ids _ ds = ds

-- The loop of `CleanUp` and `StopProcess` over the children, with the exit code. The count stays.
abbrev pub kill_children : ℕ → Server → Server
kill_children code s = record s {
  calls = each (kill_calls code) s.children.handles s.calls;
  children = record s.children {
    ids = reset_ids s.children.handles s.children.ids;
    handles = all_null s.children.handles;
  };
}

abbrev pub kill_process : ℕ → Server → Server
kill_process code s = record s { calls = kill_calls code s.process s.calls; process = null }

abbrev pub drop_waits : Server → Server
drop_waits s = record s {
  calls = each unregister_calls s.children.waits (unregister_calls s.process_wait s.calls);
  process_wait = null;
  children = record s.children { waits = all_null s.children.waits };
}

abbrev pub drop_listening : Server → Server
drop_listening s = record s {
  calls = close_calls s.listening_process s.calls;
  listening_process = null;
}

abbrev pub drop_job : Server → Server
drop_job s = record s { calls = close_calls s.job s.calls; job = null }

abbrev pub drop_connection : Server → Server
drop_connection s = elim s.connection [
  | none ↦ s
  | some p ↦ record s { connection = none; calls = dereference_connection ∷ s.calls }
]

unfoldable pub clean_up : Server → Server
clean_up s =
    drop_connection (drop_job (kill_children 1 (drop_listening (kill_process 1 (drop_waits s)))))

-- `StopProcess`
unfoldable pub stop_server : Server → Server
stop_server s =
    kill_process 0 (kill_children 0 (call increment_rapid_fail_count (record s { ready = false })))

abbrev pub close_stdout : Server → Server
close_stdout s = record s { calls = close_calls s.stdout s.calls; stdout = null }

-- The destructor, but for the deletion of an empty log file.
unfoldable pub destroy : Server → Server
unfolding clean_up
destroy s =
    let s1 = clean_up s in
    let s2 =
      if s1.process_manager
      then (call dereference_process_manager (record s1 { process_manager = false }))
      else s1 in
    let s3 = close_stdout s2 in if s3.settings.stdout_log_enabled then call cancel_timer s3 else s3

abbrev pub reference_server : Server → Server
reference_server s = record s { references = s.references + 1 }

-- `DereferenceServerProcess`; the last one deletes the object.
unfoldable pub dereference_server : Server → Server
unfolding destroy
dereference_server s =
    let s1 = record s { references = s.references - 1 } in
    if s.references == 1 then call delete_this (destroy s1) else s1

-- `RegisterWaitForSingleObject` returns a BOOL, 32 bits that are zero where it fails; the handle of the wait is
-- then the NULL that the code has put there.
abbrev pub waited_on : ℕ → Handle → Handle
waited_on returned h = if returned == 0 then null else h

abbrev pub registered : ℕ → Handle → Server → Server
registered returned h s = if returned == 0 then s else call (register_wait h) s

-- `RegisterProcessWait`: the code reads the BOOL as an NTSTATUS and takes it for a failure where it is
-- negative. The caller stores the wait.
unfoldable pub register_process_wait : ℕ → Handle → Server → (Code × Handle) × Server
unfolding dereference_server
register_process_wait returned h s =
    let s1 = registered returned h (reference_server s) in
    if leb 0x80000000 returned
    then ((failure (nt_status returned), null), dereference_server s1)
    else ((success, waited_on returned h), s1)

-- `HandleProcessExit`, the callback of a wait; `up` is what CheckIfServerIsUp finds.
unfoldable pub handle_process_exit : Bool → Server → Server
unfolding dereference_server
handle_process_exit up s =
    if s.stopping
    then s
    else let s1 = record s { stopping = true } in
      dereference_server (if up then s1 else call shutdown_process (call log_shutdown s1))

abbrev pub drop_process_wait : Server → Server
unfolding dereference_server
drop_process_wait s =
    if is_null s.process_wait
    then s
    else let s1 = dereference_server (call (unregister_wait s.process_wait) s) in
      record s1 { process_wait = null }

abbrev pub terminate_opened : Server → Server
terminate_opened s =
    if is_opened s.process
    then call (terminate_process s.process 0) (record s { process = null })
    else s

unfoldable pub terminate_backend_process : Server → Server
unfolding drop_process_wait
terminate_backend_process s =
    if s.stopping
    then s
    else call log_ungraceful (terminate_opened (drop_process_wait (record s { stopping = true })))
