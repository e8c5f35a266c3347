-- ===== src/ApplicationManager/Shutdown.antt =====
-- ShutDown of APPLICATION_MANAGER, in AspNetCoreModuleV2/AspNetCore/src/applicationmanager.cxx, and
-- what the other operations do after it.
use iisintegration.Prelude.{◌≡◌, refl, true, false, List, [], ◌∷◌, none, some, arith}
use iisintegration.Prelude.Win32.{
  s_ok, hresult_from_win32, error_server_shutdown_in_progress, failed, unlocked,
}
use iisintegration.ApplicationManager.{
  Text, HostingModel, Info, Manager, System, Call, dereference, shut_down_application, call_each,
  shut_down, get_or_create_application_info, find_info, recycle_application_from_manager,
}

-- One call for each record, before the earlier calls.
abbrev pub calls_of : (Info → Call) → List Info → List Call → List Call
calls_of c [] cs = cs
calls_of c (i ∷ t) cs = calls_of c t (c i ∷ cs)

pub call_each_lem :
    (c : Info → Call) (t : List Info) (m : Manager)
    → call_each c t m ≡ record m { calls = calls_of c t m.calls }
call_each_lem c [] m = refl
call_each_lem c (i ∷ t) m = call_each_lem c t _

-- The manager when it has shut down.
abbrev pub stopped : List Info → Manager → Manager
stopped t m = record m {
  hash = none;
  file_watcher = false;
  in_shutdown = true;
  calls = calls_of dereference t (calls_of shut_down_application t m.calls);
}

-- ShutDown of a manager with a table, the lock free, shuts down each application once and then gives
-- up the table's reference to each, deletes the table and the file watcher, and leaves the lock
-- free. From then on a request for an application whose key can be made is refused as the server
-- shuts down, a change of the configuration is ignored, and a second ShutDown does nothing.
pub shut_down_lem :
    (t : List Info) (m : Manager)
    → m.hash ≡ some t
    → m.lock ≡ unlocked
    → (shut_down m ≡ some (stopped t m))
      × ((s : System) (p : Text) (h : HostingModel)
          → failed (s.key p) ≡ false
          → get_or_create_application_info s p h (stopped t m)
            ≡ some ((hresult_from_win32 error_server_shutdown_in_progress, none), stopped t m))
      × ((s : System) (p : Text)
          → recycle_application_from_manager s p (stopped t m) ≡ some (s_ok, stopped t m))
      × (shut_down (stopped t m) ≡ some (stopped t m))
unfolding shut_down get_or_create_application_info find_info recycle_application_from_manager
shut_down_lem t m e l =
    let m0 = record m { hash = none; file_watcher = false; in_shutdown = true } in
    let m1 = record m0 { calls = calls_of shut_down_application t m.calls } in
    (
      ground (arith, call_each_lem shut_down_application t m0, call_each_lem dereference t m1),
      λ s p h k. ground arith,
      λ s p. refl,
      refl,
    )
