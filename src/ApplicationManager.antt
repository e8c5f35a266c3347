-- ===== src/ApplicationManager.antt =====
-- APPLICATION_MANAGER of AspNetCoreModuleV2/AspNetCore/src/applicationmanager.cxx and
-- Inc/applicationmanager.h. Its hash table is the list of the records, as the table of HashTable
-- maps a key to a record; the order is that of the iteration. A function returns `none` where the
-- code waits for a lock that its own thread holds, or follows a NULL pointer.
pub mod Hosting
pub mod Recycle
pub mod Shutdown
pub mod Race
mod Tests
use iisintegration.Prelude.{
  ℕ, zero, suc, Bool, true, false, not, ◌&&◌, ◌||◌, List, [], ◌∷◌, ◌++◌, Option, none, some, ltb,
  ◌==◌, if◌then◌else◌, length, get_or, map,
}
use iisintegration.Prelude.Win32.{
  HResult, s_ok, e_outofmemory, e_unexpected, hresult_from_win32, error_server_shutdown_in_progress,
  error_app_init_failure, error_not_enough_memory, failed, SrwLock, unlocked, shared, exclusive,
}

-- A text by the codes of its characters.
abbrev pub Text : Type 0
Text = List ℕ

-- `STRU::Equals`
abbrev pub same : Text → Text → Bool
same [] [] = true
same [] (b ∷ q) = false
same (a ∷ p) [] = false
same (a ∷ p) (b ∷ q) = a == b && same p q

pub data HostingModel : Type 0 where
  hosting_unknown hosting_in_process hosting_out_process : HostingModel

abbrev pub same_model : HostingModel → HostingModel → Bool
same_model hosting_unknown hosting_unknown = true
same_model hosting_in_process hosting_in_process = true
same_model hosting_out_process hosting_out_process = true
same_model _ _ = false

-- An APPLICATION_INFO: its address, its configuration path and the hosting model configured.
pub record Info : Type 0 where
  pub address : ℕ
  pub path : Text
  pub hosting_model : HostingModel

-- What the manager calls on records and on the server.
pub data Call : Type 0 where
  reference dereference delete_info start_monitoring recycle_application shut_down_application :
      Info → Call
  recycle_process : Call

-- `hash` is `none` for NULL. `in_shutdown` and `recycle_process_called` are the globals
-- `g_fInShutdown` and `g_fRecycleProcessCalled`. `calls` has the latest call first.
pub record Manager : Type 0 where
  pub hash : Option (List Info)
  pub file_watcher : Bool
  pub hosting_model : HostingModel
  pub lock : SrwLock
  pub in_shutdown : Bool
  pub recycle_process_called : Bool
  pub calls : List Call

-- What the calls out of the manager return: `key.Initialize`, the allocations, the initialisations of
-- the new record and of the second table, whether a node can be allocated for a record, and the
-- case mapping of `CompareStringOrdinal`.
pub record System : Type 0 where
  pub key : Text → HResult
  pub address : ℕ
  pub info_memory : Bool
  pub initialized : HResult
  pub node : Info → Bool
  pub table_memory : Bool
  pub table_initialized : HResult
  pub upcase : ℕ → ℕ

unfoldable pub new_manager : Manager
new_manager = record {
  hash = none;
  file_watcher = false;
  hosting_model = hosting_unknown;
  lock = unlocked;
  in_shutdown = false;
  recycle_process_called = false;
  calls = [];
}

abbrev pub call : Call → Manager → Manager
call c m = record m { calls = c ∷ m.calls }

-- `FindKey`
abbrev pub find_key : Text → List Info → Option Info
find_key p [] = none
find_key p (i ∷ t) = if same i.path p then some i else find_key p t

abbrev pub Outcome : Type 0
Outcome = (HResult × Option Info) × Manager

abbrev pub reference_found : Option Info → Manager → Outcome
reference_found none m = ((s_ok, none), m)
reference_found (some i) m = ((s_ok, some i), call (reference i) m)

-- The first part of `GetOrCreateApplicationInfo`, under the shared lock.
unfoldable pub find_info : Text → Manager → Option Outcome
find_info p m = elim m.lock [
  | unlocked ↦
      if m.in_shutdown
      then some ((hresult_from_win32 error_server_shutdown_in_progress, none), m)
      else elim m.hash [ none ↦ none | some t ↦ some (reference_found (find_key p t) m) ]
  | _ ↦ none
]

-- The second part, without the lock: which hosting models may go on.
unfoldable pub check_hosting_model : HostingModel → Manager → Option HResult
check_hosting_model hosting_in_process m = elim m.hash [
  | none ↦ none
  | some t ↦
      if ltb 0 (length t) then some (hresult_from_win32 error_app_init_failure) else some s_ok
]
check_hosting_model hosting_out_process m = some s_ok
check_hosting_model hosting_unknown m = some e_unexpected

-- The new record is given up at `Finished`.
abbrev pub give_up : Info → HResult → Manager → Outcome
give_up i hr m = ((hr, none), call (dereference i) m)

abbrev pub decided : HostingModel → HostingModel → HostingModel
decided hosting_unknown h = h
decided g h = g

abbrev pub is_mixed : HostingModel → HostingModel → Bool
is_mixed g h = not (same_model g hosting_unknown) && not (same_model g h)

abbrev pub insert_info : System → Info → List Info → Manager → Outcome
insert_info s i t m =
    if is_mixed m.hosting_model i.hosting_model
    then give_up i (hresult_from_win32 error_app_init_failure) m
    else if failed s.initialized
    then give_up i s.initialized m
    else if not (s.node i)
    then give_up i (hresult_from_win32 error_not_enough_memory) m
    else (
      (s_ok, some i),
      call (start_monitoring i) (
          call (reference i) (record m {
            hash = some (i ∷ t);
            hosting_model = decided m.hosting_model i.hosting_model;
          })),
    )

abbrev pub create_locked : System → Info → List Info → Manager → Outcome
create_locked s i t m =
    if m.in_shutdown
    then give_up i (hresult_from_win32 error_server_shutdown_in_progress) m
    else elim (find_key i.path t) [
      | some j ↦ ((s_ok, some j), call (delete_info i) (call (reference j) m))
      | none ↦ insert_info s i t m
    ]

-- The third part, under the exclusive lock.
unfoldable pub create_info : System → Info → Manager → Option Outcome
create_info s i m = elim m.lock [
  | unlocked ↦ elim m.hash [
    | none ↦
        if m.in_shutdown
        then some (give_up i (hresult_from_win32 error_server_shutdown_in_progress) m)
        else none
    | some t ↦ some (create_locked s i t m)
  ]
  | _ ↦ none
]

abbrev pub create_after_check : System → Text → HostingModel → Manager → Option Outcome
unfolding create_info check_hosting_model
create_after_check s p h m = elim (check_hosting_model h m) [
  | none ↦ none
  | some hr ↦
      if failed hr
      then some ((hr, none), m)
      else if not s.info_memory
      then some ((e_outofmemory, none), m)
      else create_info s (record { address = s.address; path = p; hosting_model = h }) m
]

abbrev pub create_unless_found : System → Text → HostingModel → Outcome → Option Outcome
create_unless_found s p h ((hr, some i), m) = some ((hr, some i), m)
create_unless_found s p h ((hr, none), m) =
    if failed hr then some ((hr, none), m) else create_after_check s p h m

unfoldable pub get_or_create_application_info :
    System → Text → HostingModel → Manager → Option Outcome
unfolding find_info
get_or_create_application_info s p h m =
    if failed (s.key p)
    then some ((s.key p, none), m)
    else elim (find_info p m) [ none ↦ none | some r ↦ create_unless_found s p h r ]

-- `StartsWith` without regard to case
abbrev pub starts_with : (ℕ → ℕ) → Text → Text → Bool
starts_with upcase p [] = true
starts_with upcase [] (b ∷ q) = false
starts_with upcase (a ∷ p) (b ∷ q) = upcase a == upcase b && starts_with upcase p q

abbrev pub slash : ℕ
slash = 47

-- The character after the prefix is read with the terminating zero.
unfoldable pub find_config_changed_application : (ℕ → ℕ) → Text → Info → Bool
find_config_changed_application upcase changed i =
    starts_with upcase i.path changed
    && (get_or i.path (length changed) 0 == 0 || get_or i.path (length changed) 0 == slash)

abbrev pub keep : (Info → Bool) → List Info → List Info
keep f [] = []
keep f (i ∷ t) = if f i then i ∷ keep f t else keep f t

abbrev pub call_each : (Info → Call) → List Info → Manager → Manager
call_each c [] m = m
call_each c (i ∷ t) m = call_each c t (call (c i) m)

-- The loop over the paths of the applications that were removed, in the copied table.
unfoldable pub recycle_paths : System → List Info → List Info → Manager → Option (HResult × Manager)
recycle_paths s table [] m = some (s_ok, m)
recycle_paths s table (i ∷ is) m = elim (find_key i.path table) [
  | none ↦ if failed (s.key i.path) then some (s.key i.path, m) else none
  | some j ↦
      let rest =
        recycle_paths s table is
          (call (dereference j) (call (recycle_application j) (call (reference j) m))) in
      if failed (s.key i.path) then some (s.key i.path, m) else rest
]

-- The label `Finished`: the copied table is cleared unless it was kept, and a failure recycles the
-- process once.
unfoldable pub finish_recycle : Bool → List Info → HResult × Manager → HResult × Manager
finish_recycle keep_table table (hr, m) =
    let m1 = if keep_table then m else call_each dereference table m in
    if failed hr && not m1.recycle_process_called
    then (hr, call recycle_process (record m1 { recycle_process_called = true }))
    else (hr, m1)

abbrev pub nothing_left : List Info → Bool
nothing_left t = length t == 0

-- The part under the lock, which it releases: what is left of the table, and the hosting model.
unfoldable pub remove_changed : Bool → List Info → List Info → Manager → Manager
remove_changed keep_table table kept m =
    let left = if keep_table then table else kept in
    record m {
      hash = some left;
      hosting_model = if nothing_left left then hosting_unknown else m.hosting_model;
      lock = unlocked;
    }

abbrev pub recycle_kept :
    Bool → System → List Info → List Info → List Info → Manager → Option (HResult × Manager)
unfolding recycle_paths finish_recycle remove_changed
recycle_kept keep_table s table gone kept m =
    let m1 = call_each dereference gone (call_each reference table m) in
    elim (recycle_paths s table gone (remove_changed keep_table table kept m1)) [
      | none ↦ none
      | some r ↦ some (finish_recycle keep_table table r)
    ]

-- In process the copied table becomes the manager's when something was removed.
abbrev pub recycle_with :
    System → List Info → List Info → List Info → Manager → Option (HResult × Manager)
unfolding recycle_kept
recycle_with s table gone kept m =
    recycle_kept (not (nothing_left gone) && same_model m.hosting_model hosting_in_process) s table
      gone kept m

-- On the three failures before the table is copied the exclusive lock stays held.
abbrev pub recycle_locked : System → Text → Manager → Option (HResult × Manager)
unfolding find_config_changed_application finish_recycle
recycle_locked s p m =
    let changed = find_config_changed_application s.upcase p in
    if failed (s.key p)
    then some (finish_recycle false [] (s.key p, m))
    else if not s.table_memory
    then some (finish_recycle false [] (e_outofmemory, m))
    else if failed s.table_initialized
    then some (finish_recycle false [] (s.table_initialized, m))
    else elim m.hash [
      | none ↦ none
      | some t ↦ recycle_with s (keep s.node t) (keep changed t) (keep (λ i. not (changed i)) t) m
    ]

unfoldable pub recycle_application_from_manager :
    System → Text → Manager → Option (HResult × Manager)
recycle_application_from_manager s p m =
    if m.in_shutdown
    then some (s_ok, m)
    else elim m.lock [ unlocked ↦ recycle_locked s p (record m { lock = exclusive }) | _ ↦ none ]

-- `ShutdownApplication` of each record, then `Clear`.
unfoldable pub shut_down : Manager → Option Manager
shut_down m = elim m.hash [
  | none ↦ some (record m { in_shutdown = true })
  | some t ↦ elim m.lock [
    | unlocked ↦ some (
        call_each dereference t (
          call_each shut_down_application t
            (record m { hash = none; file_watcher = false; in_shutdown = true })))
    | _ ↦ none
  ]
]
