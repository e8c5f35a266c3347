-- ===== src/ServerProcess/Codes.antt =====
-- The status codes of SERVER_PROCESS, by their names in
-- AspNetCoreModuleV2/RequestHandler/outofprocess/serverprocess.cxx.
use iisintegration.Prelude.{ℕ, Bool, true, false, List, [], ◌∷◌, if◌then◌else◌}

pub data Reason : Type 0 where
  invalid_argument out_of_memory unexpected already_exists port_not_set invalid_environment
        invalid_parameter activation_exec_failure activation_timed_out create_failed process_aborted
        timed_out not_supported not_enough_memory unspecified :
      Reason
  last_error : ℕ → Reason
  nt_status : ℕ → Reason

-- S_OK, a failure, or an RPC_STATUS that is stored in an HRESULT as it is: it is positive, a success.
pub data Code : Type 0 where
  success : Code
  failure : Reason → Code
  rpc_status : ℕ → Code

abbrev pub failed_code : Code → Bool
failed_code (failure r) = true
failed_code _ = false

-- `if (FAILED(hr = a) || FAILED(hr = b) || ...)`, with the last code where none fails.
abbrev pub first_failure : List Code → Code → Code
first_failure [] last = last
first_failure (c ∷ cs) last = if failed_code c then c else first_failure cs last
