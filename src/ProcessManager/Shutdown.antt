-- ===== src/ProcessManager/Shutdown.antt =====
-- ShutdownProcess, ShutdownAllProcesses and SendShutdownSignal of PROCESS_MANAGER, in
-- AspNetCoreModuleV2/RequestHandler/outofprocess/processmanager.h.
use iisintegration.Prelude.{
  ℕ, zero, suc, ◌+◌, ◌%◌, ◌<◌, ◌≡◌, refl, ap, arith, List, [], ◌∷◌, Option, none, some, ◌==◌,
  if◌then◌else◌, length, map, replicate, get_elem?, ==_refl, inl, inr, Bool-cases,
}
use iisintegration.Prelude.Win32.{unlocked, exclusive}
use iisintegration.ProcessManager.{
  dword, Process, Call, stop_process, send_signal, dereference_server_process, Manager,
  shutdown_loop, shutdown_process_no_lock, shutdown_process, signal_loop, put_entry,
  shutdown_all_processes_no_lock, shutdown_all_processes, send_shutdown_signal,
  increment_rapid_fail_count, dereference, stop,
}

-- The processes in the list.
abbrev pub running : List (Option Process) → List Process
running [] = []
running (none ∷ l) = running l
running (some p ∷ l) = p ∷ running l

-- Those on a port.
abbrev pub on_port : ℕ → List (Option Process) → List Process
on_port port [] = []
on_port port (none ∷ l) = on_port port l
on_port port (some p ∷ l) = if p.port == port then p ∷ on_port port l else on_port port l

abbrev pub close : ℕ → Option Process → Option Process
close port none = none
close port (some p) = if p.port == port then none else some p

pub length-close : (port : ℕ) (l : List (Option Process)) → length (map (close port) l) ≡ length l
length-close port [] = refl
length-close port (e ∷ l) = ap suc (length-close port l)

pub close_at :
    (l : List (Option Process)) (i : ℕ) (p : Process)
    → get_elem? l i ≡ some (some p)
    → get_elem? (map (close p.port) l) i ≡ some none
close_at [] i p h = absurd (ground arith)
close_at (e ∷ l) zero p h = ground (arith, ==_refl p.port)
close_at (e ∷ l) (suc i) p h = close_at l i p h

-- The calls that stop each process, put before the earlier ones.
abbrev pub stop_calls : List Process → List Call → List Call
stop_calls [] cs = cs
stop_calls (p ∷ ps) cs = stop_calls ps (dereference_server_process p ∷ stop_process p ∷ cs)

abbrev pub signal_calls : List Process → List Call → List Call
signal_calls [] cs = cs
signal_calls (p ∷ ps) cs = signal_calls ps (dereference_server_process p ∷ send_signal p ∷ cs)

-- The manager when the processes have been stopped, and when they have been signalled.
abbrev pub after_stops : List Process → Manager → Manager
after_stops ps m = record m {
  rapid_fail_count = (m.rapid_fail_count + length ps) % dword;
  calls = stop_calls ps m.calls;
}

abbrev pub after_signals : List Process → Manager → Manager
after_signals ps m = record m { calls = signal_calls ps m.calls }

pub shutdown_loop_lem :
    (port : ℕ) (l : List (Option Process)) (m : Manager)
    → m.rapid_fail_count < dword
    → shutdown_loop (length l) port l m ≡ some (map (close port) l, after_stops (on_port port l) m)
unfolding shutdown_loop increment_rapid_fail_count
shutdown_loop_lem port [] m h = ground arith
shutdown_loop_lem port (none ∷ l) m h = ap (put_entry none) (shutdown_loop_lem port l m h)
shutdown_loop_lem port (some p ∷ l) m h = elim (Bool-cases (p.port == port)) [
  | inl e ↦ ground (arith, shutdown_loop_lem port l (dereference p (stop p m)))
  | inr e ↦ rw (e, shutdown_loop_lem port l m h)
]

signal_loop_lem :
    (l : List (Option Process)) (m : Manager)
    → signal_loop (length l) l m ≡ some (replicate (length l) none, after_signals (running l) m)
unfolding signal_loop
signal_loop_lem [] m = refl
signal_loop_lem (none ∷ l) m = ap (put_entry none) (signal_loop_lem l m)
signal_loop_lem (some p ∷ l) m = ap (put_entry none) (signal_loop_lem l _)

pub shutdown_process_no_lock_lem :
    (m : Manager) (l : List (Option Process))
    → m.server_process_list ≡ some l
    → m.processes_per_application ≡ length l
    → (port : ℕ) → m.rapid_fail_count < dword
    → shutdown_process_no_lock port m
      ≡ some (
        tt,
        record (after_stops (on_port port l) m) { server_process_list = some (map (close port) l) },
      )
unfolding shutdown_process_no_lock
shutdown_process_no_lock_lem m l listed sized port h = ground (arith, shutdown_loop_lem port l m)

module _ (m : Manager) (l : List (Option Process)) (free : m.lock ≡ unlocked)
    (listed : m.server_process_list ≡ some l) (sized : m.processes_per_application ≡ length l) where
  -- ShutdownProcess, with the lock free and as many entries as the manager counts, empties exactly
  -- the entries whose process has the port, stops each of these processes and gives up one
  -- reference to it, counts one rapid failure for each, in 32 bits, and leaves the lock free.
  pub shutdown_process_lem :
      (port : ℕ)
      → m.rapid_fail_count < dword
      → shutdown_process port m
        ≡ some (
          tt,
          record (after_stops (on_port port l) m) {
            server_process_list = some (map (close port) l);
            lock = unlocked;
          },
        )
  unfolding shutdown_process shutdown_process_no_lock
  shutdown_process_lem port h =
      ground (arith, shutdown_loop_lem port l (record m { lock = exclusive }))

  -- SendShutdownSignal and ShutdownAllProcesses, with the lock free and as many entries as the
  -- manager counts, empty every entry, signal each process and give up one reference to it, count
  -- no rapid failure, and leave the lock free.
  pub send_shutdown_signal_lem :
      (send_shutdown_signal m
        ≡ some (
          tt,
          record (after_signals (running l) m) {
            server_process_list = some (replicate (length l) none);
            lock = unlocked;
          },
        ))
      × (shutdown_all_processes m ≡ send_shutdown_signal m)
  unfolding send_shutdown_signal shutdown_all_processes shutdown_all_processes_no_lock
  send_shutdown_signal_lem =
      (ground (arith, signal_loop_lem l (record m { lock = exclusive })), refl)
