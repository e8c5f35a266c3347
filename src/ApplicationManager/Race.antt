-- ===== src/ApplicationManager/Race.antt =====
-- Two threads in GetOrCreateApplicationInfo of APPLICATION_MANAGER, in
-- AspNetCoreModuleV2/AspNetCore/src/applicationmanager.cxx, part by part.
use iisintegration.Prelude.{◌≡◌, true, false, List, [], ◌∷◌, none, some, arith}
use iisintegration.Prelude.Win32.{s_ok, failed, unlocked}
use iisintegration.ApplicationManager.{
  same, hosting_unknown, hosting_in_process, Info, Manager, System, find_info, check_hosting_model,
  create_info, call, reference, start_monitoring,
}

-- The manager with the record as its newest.
abbrev pub with_info : Info → List Info → Manager → Manager
with_info i t m =
    call (start_monitoring i)
      (call (reference i) (record m { hash = some (i ∷ t); hosting_model = hosting_in_process }))

-- Two threads that ask for in-process applications with different paths of a manager without
-- records, where the initialisations and allocations succeed and both pass the unlocked test for
-- another application before either creates its record, both succeed: the table then holds two
-- in-process applications.
pub two_in_process :
    (s : System) (i j : Info) (m : Manager)
    → m.lock ≡ unlocked
    → m.in_shutdown ≡ false
    → m.hash ≡ some []
    → m.hosting_model ≡ hosting_unknown
    → failed s.initialized ≡ false
    → s.node i ≡ true
    → s.node j ≡ true
    → i.hosting_model ≡ hosting_in_process
    → j.hosting_model ≡ hosting_in_process
    → same i.path j.path ≡ false
    → let one = with_info i [] m in
      (find_info i.path m ≡ some ((s_ok, none), m))
      × (find_info j.path m ≡ some ((s_ok, none), m))
      × (check_hosting_model hosting_in_process m ≡ some s_ok)
      × (create_info s i m ≡ some ((s_ok, some i), one))
      × (create_info s j one ≡ some ((s_ok, some j), with_info j (i ∷ []) one))
unfolding find_info check_hosting_model create_info
two_in_process s i j m l d e g x a b hi hj n =
    (ground arith, ground arith, ground arith, ground arith, ground arith)
