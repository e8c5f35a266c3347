-- ===== src/ServerProcess/Jobs.antt =====
-- The processes of the job of a server process: IsDebuggerIsAttached, GetChildProcessHandles and
-- StopAllProcessesInJobObject of
-- AspNetCoreModuleV2/RequestHandler/outofprocess/serverprocess.cxx.
use iisintegration.Prelude.{
  ℕ, zero, suc, ◌+◌, Bool, true, false, ◌||◌, List, [], ◌∷◌, Option, none, some, ltb, ◌==◌,
  if◌then◌else◌, length, set,
}
use iisintegration.ServerProcess.{
  close_handle, terminate_process, is_null, Call, Server, Handle, Children,
  max_active_child_processes,
}
use iisintegration.ServerProcess.Codes.{
  not_enough_memory, Code, success, failure, out_of_memory, create_failed, process_aborted,
  last_error, failed_code,
}

-- What one round over QueryInformationJobObject meets: no memory, an error other than
-- ERROR_MORE_DATA, or the list, with whether there is more data and how many processes are assigned.
pub data JobAnswer : Type 0 where
  job_no_memory : JobAnswer
  job_error : ℕ → JobAnswer
  job_list : Bool → ℕ → List ℕ → JobAnswer

abbrev pub job_retries : ℕ
job_retries = 5

-- The list is not whole or empty.
abbrev pub is_short : ℕ → List ℕ → Bool
is_short assigned pids = ltb (length pids) assigned || length pids == 0

abbrev pub judge_list : Bool → ℕ → List ℕ → Code × List ℕ
judge_list more assigned pids =
    if more
    then (failure out_of_memory, [])
    else if is_short assigned pids
    then (failure process_aborted, [])
    else if ltb max_active_child_processes (length pids)
    then (failure create_failed, [])
    else (success, pids)

abbrev pub judge : JobAnswer → Code × List ℕ
judge job_no_memory = (failure out_of_memory, [])
judge (job_error e) = (failure (last_error e), [])
judge (job_list more assigned pids) = judge_list more assigned pids

abbrev pub asks_again : JobAnswer → Bool
asks_again (job_list more assigned pids) = is_short assigned pids
asks_again _ = false

-- The loop with `left` retries left, in round `k`, and the tests behind it.
unfoldable pub query_job : ℕ → (ℕ → JobAnswer) → ℕ → Code × List ℕ
query_job zero answer k = judge (answer k)
query_job (suc left) answer k =
    let next = query_job left answer (k + 1) in
    if asks_again (answer k) then next else judge (answer k)

-- `CheckRemoteDebuggerPresent` on a process; `none` where it fails.
abbrev pub or_false : Option Bool → Bool
or_false none = false
or_false (some b) = b

abbrev pub find_debugger : ℕ → (ℕ → Option Bool) → List ℕ → Bool
find_debugger worker present [] = false
find_debugger worker present (p ∷ ps) =
    let rest = find_debugger worker present ps in
    if p == worker
    then rest
    else elim (present p) [ none ↦ false | some true ↦ true | some false ↦ rest ]

unfoldable pub is_debugger_is_attached : ℕ → (ℕ → JobAnswer) → (ℕ → Option Bool) → Bool
unfolding query_job
is_debugger_is_attached worker job present =
    let (hr, pids) = query_job job_retries job 0 in
    if failed_code hr then false else find_debugger worker present pids

-- The next entry of the three arrays; `none` where the code writes behind their end.
abbrev pub store_child : ℕ → Handle → Children → Option Children
store_child pid h c =
    if ltb c.count max_active_child_processes
    then some (record c {
      count = c.count + 1;
      ids = set c.ids c.count pid;
      handles = set c.handles c.count h;
    })
    else none

abbrev pub store_children : ℕ → ℕ → (ℕ → Handle) → List ℕ → Children → Option Children
store_children worker own open_process [] c = some c
store_children worker own open_process (p ∷ ps) c =
    if p == own || p == worker
    then store_children worker own open_process ps c
    else elim (store_child p (open_process p) c) [
      | none ↦ none
      | some c' ↦ store_children worker own open_process ps c'
    ]

unfoldable pub get_child_process_handles :
    ℕ → (ℕ → JobAnswer) → (ℕ → Handle) → Server → Option (Code × Server)
unfolding query_job
get_child_process_handles worker job open_process s =
    let (hr, pids) = query_job job_retries job 0 in
    if failed_code hr
    then some (hr, s)
    else elim (store_children worker s.process_id open_process pids s.children) [
      | none ↦ none
      | some c ↦ some (hr, record s { children = c })
    ]

-- The tests of StopAllProcessesInJobObject, which knows no ERROR_MORE_DATA.
abbrev pub judge_all : JobAnswer → Code × List ℕ
judge_all job_no_memory = (failure out_of_memory, [])
judge_all (job_error e) = (failure (last_error e), [])
judge_all (job_list more assigned pids) =
    if is_short assigned pids then (failure not_enough_memory, []) else (success, pids)

abbrev pub query_all : ℕ → (ℕ → JobAnswer) → ℕ → Code × List ℕ
query_all zero answer k = judge_all (answer k)
query_all (suc left) answer k =
    let next = query_all left answer (k + 1) in
    if asks_again (answer k) then next else judge_all (answer k)

-- The loop over the processes, with the error of TerminateProcess by the process.
abbrev pub stop_each :
    ℕ → (ℕ → Handle) → (ℕ → Option ℕ) → List ℕ → Code → List Call → Code × List Call
stop_each worker open_process refused [] hr cs = (hr, cs)
stop_each worker open_process refused (p ∷ ps) hr cs =
    let h = open_process p in
    let stopped = close_handle h ∷ terminate_process h 1 ∷ cs in
    let skip = stop_each worker open_process refused ps hr cs in
    if p == worker || is_null h then skip else elim (refused p) [
      | none ↦ stop_each worker open_process refused ps hr stopped
      | some e ↦ stop_each worker open_process refused ps (failure (last_error e)) stopped
    ]

unfoldable pub stop_all_processes_in_job_object :
    ℕ → (ℕ → JobAnswer) → (ℕ → Handle) → (ℕ → Option ℕ) → Server → Code × Server
stop_all_processes_in_job_object worker job open_process refused s =
    let (hr, pids) = query_all job_retries job 0 in
    let (hr', cs) = stop_each worker open_process refused pids hr s.calls in
    if failed_code hr then (hr, s) else (hr', record s { calls = cs })
