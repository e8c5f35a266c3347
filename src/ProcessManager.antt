-- ===== src/ProcessManager.antt =====
-- PROCESS_MANAGER of AspNetCoreModuleV2/RequestHandler/outofprocess/processmanager.cxx and
-- processmanager.h. A function returns `none` where the code faults: an acquisition of a lock
-- that is held, a division by zero, a read outside the list, a NULL pointer, or the increment of 64
-- bits that carries out of the 32-bit index into the lock beside it.
pub mod Rapid
pub mod Shutdown
pub mod Serve
pub mod RoundRobin
mod Tests
use iisintegration.Prelude.{
  ℕ, zero, suc, ◌+◌, ◌-◌, ◌%◌, ◌^◌, Bool, true, false, not, List, [], ◌∷◌, ◌++◌, ◌||◌, Option, none,
  some, ltb, leb, ◌==◌, if◌then◌else◌, replicate, set, get_elem?,
}
use iisintegration.Prelude.Win32.{
  HResult, s_ok, e_outofmemory, hresult_from_win32, Win32Error, error_server_disabled,
  error_create_failed, failed, SrwLock, unlocked, shared, exclusive,
}

abbrev pub dword : ℕ
dword = 2 ^ 32

abbrev pub one_minute_in_milliseconds : ℕ
one_minute_in_milliseconds = 60000

-- What the manager reads of a SERVER_PROCESS: `GetPort` and `IsReady`.
pub record Process : Type 0 where
  pub port : ℕ
  pub ready : Bool

-- What the manager calls on a server process.
pub data Call : Type 0 where
  stop_process send_signal dereference_server_process : Process → Call

-- `m_hNULHandle`: NULL, INVALID_HANDLE_VALUE or an open handle
pub data NulHandle : Type 0 where
  no_handle invalid_handle open_handle : NulHandle

-- `rapid_fail_count` is the LONG by its 32 bits. The list is `none` for NULL, an entry as well.
-- `calls` records the calls on server processes.
pub record Manager : Type 0 where
  pub rapid_fail_count : ℕ
  pub rapid_fail_tick_start : ℕ
  pub processes_per_application : ℕ
  pub route_to_process_index : ℕ
  pub server_process_list : Option (List (Option Process))
  pub list_ready : Bool
  pub nul_handle : NulHandle
  pub lock : SrwLock
  pub calls : List Call

pub record Config : Type 0 where
  pub processes_per_application : ℕ
  pub rapid_fails_per_minute : ℕ

-- What the calls out of the manager return: `GetTickCount`, the two allocations, `Initialize` and
-- `StartProcess` of the new server process and the process that they leave, `WSAStartup`, and the
-- error of `CreateFileW`, if any.
pub record System : Type 0 where
  pub tick_count : ℕ
  pub list_memory : Bool
  pub process_memory : Bool
  pub initialized : HResult
  pub start : HResult
  pub started : Process
  pub wsa_startup : Win32Error
  pub nul_file : Option Win32Error

-- The constructor, which leaves `m_dwRapidFailTickStart` as it finds it.
unfoldable pub new_manager : ℕ → Manager
new_manager unset_tick = record {
  rapid_fail_count = 0;
  rapid_fail_tick_start = unset_tick;
  processes_per_application = 1;
  route_to_process_index = 0;
  server_process_list = none;
  list_ready = false;
  nul_handle = no_handle;
  lock = unlocked;
  calls = [];
}

-- What a VOID function returns.
abbrev pub Void : Type 0
Void = Unit

abbrev pub release {ℓ} : {A : Type ℓ} → Option (A × Manager) → Option (A × Manager)
release none = none
release (some (a, m)) = some (a, record m { lock = unlocked })

abbrev pub acquire {ℓ} :
    {A : Type ℓ} → SrwLock → (Manager → Option (A × Manager)) → Manager → Option (A × Manager)
acquire l f m = elim m.lock [ unlocked ↦ release (f (record m { lock = l })) | _ ↦ none ]

-- `WSAStartup` once per worker process; `done` is `sm_fWSAStartupDone`.
abbrev pub start_wsa : System → Bool → Manager → Option ((Win32Error × Bool) × Manager)
start_wsa s done m =
    if done then some ((Win32Error.error_success, true), m) else elim s.wsa_startup [
      | Win32Error.error_success ↦ some ((Win32Error.error_success, true), m)
      | e ↦ some ((e, false), m)
    ]

abbrev pub open_nul : System → Manager → HResult × Manager
open_nul s m = elim m.nul_handle [
  | no_handle ↦ elim s.nul_file [
    | none ↦ (s_ok, record m { nul_handle = open_handle })
    | some e ↦ (hresult_from_win32 e, record m { nul_handle = invalid_handle })
  ]
  | _ ↦ (s_ok, m)
]

abbrev pub after_wsa : System → (Win32Error × Bool) × Manager → (HResult × Bool) × Manager
after_wsa s ((Win32Error.error_success, done), m) =
    let (hr, m1) = open_nul s (record m { rapid_fail_tick_start = s.tick_count }) in
    ((hr, done), m1)
after_wsa s ((e, done), m) = ((hresult_from_win32 e, done), m)

unfoldable pub initialize : System → Bool → Manager → Option ((HResult × Bool) × Manager)
initialize s done m =
    elim (if done then start_wsa s done m else acquire exclusive (start_wsa s done) m) [
      | none ↦ none
      | some r ↦ some (after_wsa s r)
    ]

unfoldable pub increment_rapid_fail_count : Manager → Manager
increment_rapid_fail_count m = record m { rapid_fail_count = (m.rapid_fail_count + 1) % dword }

-- A LONG by its 32 bits, moved up so that the order of the signed values is that of the numbers.
abbrev pub signed : ℕ → ℕ
signed n = (n + 2 ^ 31) % dword

-- `dwCurrentTickCount - m_dwRapidFailTickStart` on DWORDs
abbrev pub elapsed : ℕ → ℕ → ℕ
elapsed now start = (now + dword - start) % dword

-- The counters, reset when the minute is over.
unfoldable pub reset_window : ℕ → Manager → Manager
reset_window now m =
    if leb one_minute_in_milliseconds (elapsed now m.rapid_fail_tick_start)
    then record m { rapid_fail_count = 0; rapid_fail_tick_start = now }
    else m

unfoldable pub rapid_fails_per_minute_exceeded : ℕ → ℕ → Manager → Bool × Manager
unfolding reset_window
rapid_fails_per_minute_exceeded now limit m =
    let m1 = reset_window now m in (ltb (signed limit) (signed m1.rapid_fail_count), m1)

-- `StopProcess` counts as a rapid failure.
abbrev pub stop : Process → Manager → Manager
unfolding increment_rapid_fail_count
stop p m = increment_rapid_fail_count (record m { calls = stop_process p ∷ m.calls })

abbrev pub signal : Process → Manager → Manager
signal p m = record m { calls = send_signal p ∷ m.calls }

abbrev pub dereference : Process → Manager → Manager
dereference p m = record m { calls = dereference_server_process p ∷ m.calls }

abbrev pub put_entry :
    Option Process
    → Option (List (Option Process) × Manager)
    → Option (List (Option Process) × Manager)
put_entry e none = none
put_entry e (some (l, m)) = some (e ∷ l, m)

-- The loop of `ShutdownProcessNoLock` over the entries that are left.
unfoldable pub shutdown_loop :
    ℕ → ℕ → List (Option Process) → Manager → Option (List (Option Process) × Manager)
shutdown_loop zero port l m = some (l, m)
shutdown_loop (suc n) port [] m = none
shutdown_loop (suc n) port (none ∷ l) m = put_entry none (shutdown_loop n port l m)
shutdown_loop (suc n) port (some p ∷ l) m =
    let m1 = if p.port == port then dereference p (stop p m) else m in
    let rest = shutdown_loop n port l m1 in put_entry (if p.port == port then none else some p) rest

abbrev pub with_list : Option (List (Option Process) × Manager) → Option (Void × Manager)
with_list none = none
with_list (some (l, m)) = some (tt, record m { server_process_list = some l })

unfoldable pub shutdown_process_no_lock : ℕ → Manager → Option (Void × Manager)
shutdown_process_no_lock port m = elim m.server_process_list [
  | none ↦ some (tt, m)
  | some l ↦ with_list (shutdown_loop m.processes_per_application port l m)
]

unfoldable pub shutdown_process : ℕ → Manager → Option (Void × Manager)
shutdown_process port m = acquire exclusive (shutdown_process_no_lock port) m

-- The loop of `SendShutdownSignal` and of `ShutdownAllProcessesNoLock`, which are the same.
unfoldable pub signal_loop :
    ℕ → List (Option Process) → Manager → Option (List (Option Process) × Manager)
signal_loop zero l m = some (l, m)
signal_loop (suc n) [] m = none
signal_loop (suc n) (none ∷ l) m = put_entry none (signal_loop n l m)
signal_loop (suc n) (some p ∷ l) m = put_entry none (signal_loop n l (dereference p (signal p m)))

unfoldable pub shutdown_all_processes_no_lock : Manager → Option (Void × Manager)
shutdown_all_processes_no_lock m = elim m.server_process_list [
  | none ↦ some (tt, m)
  | some l ↦ with_list (signal_loop m.processes_per_application l m)
]

unfoldable pub shutdown_all_processes : Manager → Option (Void × Manager)
shutdown_all_processes m = acquire exclusive shutdown_all_processes_no_lock m

unfoldable pub send_shutdown_signal : Manager → Option (Void × Manager)
send_shutdown_signal m = acquire exclusive shutdown_all_processes_no_lock m

-- `GetProcess`, first part: the list, once.
abbrev pub allocate_list : Config → System → Manager → Option (HResult × Manager)
allocate_list c s m =
    let m1 = record m { processes_per_application = c.processes_per_application } in
    if m.list_ready
    then some (s_ok, m)
    else if s.list_memory
    then some (
      s_ok,
      record m1 {
        server_process_list = some (replicate c.processes_per_application none);
        list_ready = true;
      },
    )
    else some (e_outofmemory, record m1 { server_process_list = none })

unfoldable pub ensure_list : Config → System → Manager → Option (HResult × Manager)
ensure_list c s m = if m.list_ready then some (s_ok, m) else acquire exclusive (allocate_list c s) m

abbrev pub ready_process : Option Process → Option Process
ready_process none = none
ready_process (some p) = if p.ready then some p else none

abbrev pub entry_at : ℕ → Manager → Option (Option Process)
entry_at i m = elim m.server_process_list [ none ↦ none | some l ↦ get_elem? l i ]

-- Second part, under the shared lock: the next index, and its process if that is ready.
abbrev pub route : Manager → Option ((ℕ × Option Process) × Manager)
route m =
    let r = m.route_to_process_index + 1 in
    let m1 = record m { route_to_process_index = r } in
    if leb dword r || m.processes_per_application == 0
    then none
    else elim (entry_at (r % m.processes_per_application) m1) [
      | none ↦ none
      | some e ↦ some ((r % m.processes_per_application, ready_process e), m1)
    ]

-- Third part, under the exclusive lock: a new process for an empty entry.
abbrev pub start_process :
    System → ℕ → List (Option Process) → Manager → (HResult × Option Process) × Manager
start_process s i l m =
    if not s.process_memory
    then ((e_outofmemory, none), m)
    else if failed s.initialized
    then ((s.initialized, none), m)
    else if failed s.start
    then ((s.start, none), m)
    else if not s.started.ready
    then ((hresult_from_win32 error_create_failed, none), m)
    else (
      (s_ok, some s.started),
      record m { server_process_list = some (set l i (some s.started)) },
    )

abbrev pub create_at : System → ℕ → Manager → Option ((HResult × Option Process) × Manager)
create_at s i m = elim m.server_process_list [
  | none ↦ none
  | some l ↦ elim (get_elem? l i) [ some none ↦ some (start_process s i l m) | _ ↦ none ]
]

abbrev pub create_process :
    Config → System → ℕ → Manager → Option ((HResult × Option Process) × Manager)
unfolding rapid_fails_per_minute_exceeded
create_process c s i m =
    let r = rapid_fails_per_minute_exceeded s.tick_count c.rapid_fails_per_minute m in
    if r.0 then some ((hresult_from_win32 error_server_disabled, none), r.1) else create_at s i r.1

-- An entry whose process is not ready is shut down first.
abbrev pub retire : Option Process → Manager → Option (Void × Manager)
unfolding shutdown_process_no_lock
retire none m = some (tt, m)
retire (some p) m = shutdown_process_no_lock p.port m

abbrev pub replace_entry :
    Config → System → ℕ → Option Process → Manager → Option ((HResult × Option Process) × Manager)
replace_entry c s i e m = elim (ready_process e) [
  | some p ↦ some ((s_ok, some p), m)
  | none ↦ elim (retire e m) [ none ↦ none | some (_, m1) ↦ create_process c s i m1 ]
]

abbrev pub replace : Config → System → ℕ → Manager → Option ((HResult × Option Process) × Manager)
replace c s i m = elim (entry_at i m) [ none ↦ none | some e ↦ replace_entry c s i e m ]

-- The entry is read once more between the locks.
abbrev pub recheck : Config → System → ℕ → Manager → Option ((HResult × Option Process) × Manager)
recheck c s i m = elim (entry_at i m) [
  | none ↦ none
  | some e ↦ elim (ready_process e) [
    | some p ↦ some ((s_ok, some p), m)
    | none ↦ acquire exclusive (replace c s i) m
  ]
]

abbrev pub serve : Config → System → Manager → Option ((HResult × Option Process) × Manager)
serve c s m = elim (acquire shared route m) [
  | none ↦ none
  | some ((i, some p), m1) ↦ some ((s_ok, some p), m1)
  | some ((i, none), m1) ↦ recheck c s i m1
]

unfoldable pub get_process :
    Config → System → Manager → Option ((HResult × Option Process) × Manager)
unfolding ensure_list
get_process c s m = elim (ensure_list c s m) [
  | none ↦ none
  | some (hr, m1) ↦ if failed hr then some ((hr, none), m1) else serve c s m1
]
