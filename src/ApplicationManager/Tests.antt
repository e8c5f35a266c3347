-- ===== src/ApplicationManager/Tests.antt =====
-- Runs of the application manager at small inputs.
use iisintegration.Prelude.{
  ◌≡◌, ◌↔◌, ◌++◌, refl, arith, true, false, List, [], ◌∷◌, none, some, inr, map, codes,
}
use iisintegration.Prelude.Win32.{
  s_ok, e_outofmemory, failed, unlocked, exclusive, hresult_from_win32,
  error_server_shutdown_in_progress,
}
use iisintegration.ApplicationManager.{
  Text, HostingModel, hosting_unknown, hosting_in_process, hosting_out_process, Info, Manager,
  System, get_or_create_application_info, find_info, check_hosting_model, create_info, shut_down,
  recycle_application_from_manager, find_config_changed_application, recycle_process,
}
use iisintegration.ApplicationManager.Hosting.{Answers, get_or_create_application_info-Answers}
use iisintegration.ApplicationManager.Race.{two_in_process, with_info}
use iisintegration.ApplicationManager.Shutdown.{stopped, shut_down_lem}
use iisintegration.ApplicationManager.Recycle.{
  IsSubPath, find_config_changed_application_lem, recycle_application_from_manager_lem,
  recycle_application_from_manager_locks, all_calls,
}

abbrev site : Text
site = codes "W/site"

abbrev blog : Text
blog = codes "W/site/blog"

abbrev shop : Text
shop = codes "W/siteshop"

abbrev working : System
working = record {
  key = λ p. s_ok;
  address = 64;
  info_memory = true;
  initialized = s_ok;
  node = λ i. true;
  table_memory = true;
  table_initialized = s_ok;
  upcase = λ c. c;
}

abbrev without_key : System
without_key = record working { key = λ p. e_outofmemory }

abbrev app : Text → HostingModel → Info
app p h = record { address = 8; path = p; hosting_model = h }

abbrev started : Manager
started = record {
  hash = some [];
  file_watcher = true;
  hosting_model = hosting_unknown;
  lock = unlocked;
  in_shutdown = false;
  recycle_process_called = false;
  calls = [];
}

abbrev two_apps : List Info
two_apps = app blog hosting_out_process ∷ app shop hosting_out_process ∷ []

abbrev serving : Manager
serving = record started { hash = some two_apps; hosting_model = hosting_out_process }

get_or_create_application_info-Answers_example :
    Answers site (get_or_create_application_info working site hosting_out_process serving)
get_or_create_application_info-Answers_example =
    get_or_create_application_info-Answers working site hosting_out_process serving refl
      ((refl, refl, (refl, refl, tt)), inr refl)

two_in_process_example :
    let i = app site hosting_in_process in
    let j = app blog hosting_in_process in
    let one = with_info i [] started in
    (find_info site started ≡ some ((s_ok, none), started))
    × (find_info blog started ≡ some ((s_ok, none), started))
    × (check_hosting_model hosting_in_process started ≡ some s_ok)
    × (create_info working i started ≡ some ((s_ok, some i), one))
    × (create_info working j one ≡ some ((s_ok, some j), with_info j (i ∷ []) one))
two_in_process_example =
    two_in_process working (app site hosting_in_process) (app blog hosting_in_process) started refl
      refl refl refl refl refl refl refl refl refl

shut_down_lem_example :
    (shut_down serving ≡ some (stopped two_apps serving))
    × ((s : System) (p : Text) (h : HostingModel)
        → failed (s.key p) ≡ false
        → get_or_create_application_info s p h (stopped two_apps serving)
          ≡ some (
            (hresult_from_win32 error_server_shutdown_in_progress, none),
            stopped two_apps serving,
          ))
    × ((s : System) (p : Text)
        → recycle_application_from_manager s p (stopped two_apps serving)
          ≡ some (s_ok, stopped two_apps serving))
    × (shut_down (stopped two_apps serving) ≡ some (stopped two_apps serving))
shut_down_lem_example = shut_down_lem two_apps serving refl refl

find_config_changed_application_lem_example :
    (find_config_changed_application (λ c. c) site (app blog hosting_out_process) ≡ true) ↔ (
      (a : Text) × (rest : Text) × (blog ≡ a ++ rest)
      × (map (λ c. c) a ≡ map (λ c. c) site)
      × IsSubPath rest)
find_config_changed_application_lem_example =
    find_config_changed_application_lem (λ c. c) site (app blog hosting_out_process) (omega arith)

recycle_application_from_manager_lem_example :
    recycle_application_from_manager working site serving
    ≡ some (
      s_ok,
      record serving {
        hash = some (app shop hosting_out_process ∷ []);
        calls = all_calls working site two_apps serving;
      },
    )
unfolding find_config_changed_application
recycle_application_from_manager_lem_example =
    recycle_application_from_manager_lem working site two_apps serving refl refl refl refl
      (refl, refl, (refl, refl, tt)) (λ q. refl) refl refl (λ i. refl)

recycle_application_from_manager_locks_example :
    let stuck = record serving {
      lock = exclusive;
      recycle_process_called = true;
      calls = recycle_process ∷ [];
    } in
    (recycle_application_from_manager without_key site serving ≡ some (e_outofmemory, stuck))
    × ((s2 : System) (q : Text) (h : HostingModel)
        → failed (s2.key q) ≡ false
        → get_or_create_application_info s2 q h stuck ≡ none)
recycle_application_from_manager_locks_example =
    recycle_application_from_manager_locks without_key site serving refl refl refl
