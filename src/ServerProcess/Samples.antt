-- ===== src/ServerProcess/Samples.antt =====
-- A server process and answers for the tests.
use iisintegration.Prelude.{ℕ, ◌+◌, true, false, List, [], ◌∷◌, none, some, codes}
use iisintegration.ServerProcess.{Server, Settings, null, opened, no_children}
use iisintegration.ServerProcess.Codes.{success}
use iisintegration.ServerProcess.Environment.{Table, EntryAnswers}
use iisintegration.ServerProcess.Variables.{not_defined}
use iisintegration.ServerProcess.Port.{Probe, by_table, tcp_rows, PortAnswers}
use iisintegration.ServerProcess.Check.{still_active, CheckAnswers}
use iisintegration.ServerProcess.Jobs.{job_list}
use iisintegration.ServerProcess.Launch.{Attempt, created}
use iisintegration.ServerProcess.Command.{StdAnswers}

abbrev pub settings : Settings
settings = record {
  process_path = codes "dotnet";
  arguments = codes "app.dll";
  log_file = [];
  physical_path = codes "C:\\site";
  app_full_path = codes "/LM/W3SVC/1/ROOT";
  app_virtual_path = codes "/app";
  startup_time_limit = 1000;
  shutdown_time_limit = 1000;
  stdout_log_enabled = false;
  windows_auth_enabled = false;
  basic_auth_enabled = true;
  anonymous_auth_enabled = true;
  websockets_enabled = true;
}

abbrev pub server : Server
server = record {
  settings = settings;
  ready = false;
  debugger_attached = false;
  stopping = false;
  references = 1;
  port = 0;
  port_text = [];
  command_line = [];
  guid = [];
  process_id = 0;
  listening_process_id = 0;
  process = null;
  listening_process = null;
  process_wait = null;
  stdout = null;
  job = opened 3;
  children = no_children;
  connection = none;
  process_manager = true;
  calls = [];
}

abbrev pub same_case : ℕ → ℕ
same_case c = c

abbrev pub good_entry : EntryAnswers
good_entry = record { memory = true; initialized = success; node = λ n. true }

-- Port 5000 in network byte order, owned by the process `pid`.
abbrev pub listener : ℕ → Probe
listener pid = by_table (tcp_rows (record { local_port = 34835; owning_pid = pid } ∷ []))

abbrev pub nobody : Probe
nobody = by_table (tcp_rows [])

abbrev pub port_answers : PortAnswers
port_answers = record {
  fuel = 1;
  nsi = true;
  rand = λ k. 3974 + k;
  probe = λ j. nobody;
  copy_value = success;
  entry = good_entry;
  copy_buffer = success;
}

-- The job has the process 77 and the children in the list.
abbrev pub check_answers : List ℕ → ℕ → Probe → CheckAnswers
check_answers children owner last = record {
  first_debugger = some false;
  start_tick = 0;
  poll = λ k. record {
    exit = still_active;
    exit_again = still_active;
    probe = listener owner;
    job = λ r. job_list false 1 (77 ∷ []);
    present = λ p. some false;
    tick = 1000 + k;
  };
  register = 1;
  later_debugger = some false;
  nsi = true;
  worker = 1;
  child_job = λ r. job_list false 1 (77 ∷ children);
  open_child = λ p. opened p;
  child_debugger = some false;
  register_child = 1;
  final_probe = last;
  connection_memory = true;
  connection_initialized = success;
  listening = opened 78;
}

abbrev pub attempt_with : CheckAnswers → Attempt
attempt_with check = record {
  command = record {
    copy_relative = success;
    path_memory = true;
    full_path = some (codes "C:\\site\\dotnet");
    readable = false;
    copy_path = success;
    append_space = success;
    append_arguments = success;
  };
  init = record {
    table_memory = true;
    initialized = success;
    copy = λ e. some e;
    copy_node = λ n. true;
    auth = good_entry;
    startup = not_defined;
    hosting = good_entry;
  };
  websocket = record { copy = success; entry = good_entry };
  listen = port_answers;
  path = good_entry;
  token = record {
    copy_user = success;
    uuid_create = none;
    uuid_to_string = none;
    uuid = codes "1234";
    copy_uuid = success;
    copy_token = success;
    entry = good_entry;
  };
  environment = some (codes "PATH=C:\\bin" ∷ []);
  output = record { copy_name = λ n. success; append_value = λ v. success; memory = λ t. true };
  create = created (opened 7) 77;
  job = record { create = opened 4; set_information = none };
  assign = none;
  resume = none;
  fuel = 1;
  check = check;
}

abbrev pub no_log : StdAnswers
no_log = record {
  close_old = none;
  full_path = success;
  file_name = success;
  directory = success;
  file = null;
  file_error = 0;
}

-- The variable of a user who wants port 5000.
abbrev pub configured : Table
configured = record { name = codes "ASPNETCORE_PORT="; value = codes "5000" } ∷ []

abbrev pub healthy : ℕ → Attempt
healthy k = attempt_with (check_answers [] 77 nobody)
