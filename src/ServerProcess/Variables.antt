-- ===== src/ServerProcess/Variables.antt =====
-- ENVIRONMENT_VAR_HELPERS of AspNetCoreModuleV2/RequestHandler/environmentvariablehelpers.h, the
-- copy of the configured table and the variables of the module for the start of a server process, and the
-- variables that an application in process gets.
use iisintegration.Prelude.{
  List, ℕ, Bool, not, [], ◌∷◌, ◌++◌, Option, none, some, ◌==◌, if◌then◌else◌, length, codes,
}
use iisintegration.ServerProcess.{Text, Settings}
use iisintegration.ServerProcess.Codes.{
  first_failure, Code, success, failure, out_of_memory, unexpected, last_error, failed_code,
}
use iisintegration.ServerProcess.Environment.{
  Entry, Table, Memory, EntryAnswers, find_entry, delete_found, insert_entry, put_entry_for,
}

abbrev pub iis_auth_env : Text
iis_auth_env = codes "ASPNETCORE_IIS_HTTPAUTH="

abbrev pub hosting_startup_env : Text
hosting_startup_env = codes "ASPNETCORE_HOSTINGSTARTUPASSEMBLIES="

abbrev pub hosting_startup_value : Text
hosting_startup_value = codes "Microsoft.AspNetCore.Server.IISIntegration"

abbrev pub websockets_env : Text
websockets_env = codes "ASPNETCORE_IIS_WEBSOCKETS_SUPPORTED="

-- `CopyToTable` for each record: what the new entry holds after its `Initialize`, whose result is
-- ignored, or `none` without memory for it.
abbrev pub copy_to_table : (ℕ → ℕ) → (Entry → Option Entry) → Memory → Table → Table → Table
copy_to_table lower copy node [] t = t
copy_to_table lower copy node (e ∷ es) t = elim (copy e) [
  | none ↦ copy_to_table lower copy node es t
  | some d ↦ copy_to_table lower copy node es (insert_entry lower node d t).1
]

-- What GetEnvironmentVariable leaves: nothing, an error, no text after the second call, or the text.
pub data ReadAnswer : Type 0 where
  not_defined unreadable : ReadAnswer
  read_error : ℕ → ReadAnswer
  defined : Text → ReadAnswer

pub record InitAnswers : Type 0 where
  pub table_memory : Bool
  pub initialized : Code
  pub copy : Entry → Option Entry
  pub copy_node : Memory
  pub auth : EntryAnswers
  pub startup : ReadAnswer
  pub hosting : EntryAnswers

-- The copies into `strIisAuthEnvValue`, whose results are ignored, have memory.
abbrev pub auth_value : Settings → Text
auth_value g =
    let windows = if g.windows_auth_enabled then codes "windows;" else [] in
    let basic = if g.basic_auth_enabled then codes "basic;" else [] in
    let anonymous = if g.anonymous_auth_enabled then codes "anonymous;" else [] in
    elim (windows ++ (basic ++ anonymous)) [ [] ↦ codes "none" | c ∷ v ↦ c ∷ v ]

abbrev pub put_hosting : (ℕ → ℕ) → InitAnswers → Text → Table → Code × Table
put_hosting lower a v t =
    put_entry_for lower a.hosting (record { name = hosting_startup_env; value = v }) t

-- The value of the worker process comes first.
abbrev pub add_hosting : (ℕ → ℕ) → InitAnswers → Table → Code × Table
add_hosting lower a t = elim (find_entry lower hosting_startup_env t) [
  | some e ↦ (success, t)
  | none ↦ elim a.startup [
    | read_error e ↦ (failure (last_error e), t)
    | unreadable ↦ (failure unexpected, t)
    | not_defined ↦ put_hosting lower a hosting_startup_value t
    | defined v ↦ put_hosting lower a (v ++ (59 ∷ hosting_startup_value)) t
  ]
]

abbrev pub add_auth : (ℕ → ℕ) → InitAnswers → Settings → Table → Code × Table
add_auth lower a g t =
    let (hr, t1) =
      put_entry_for lower a.auth (record { name = iis_auth_env; value = auth_value g })
        (delete_found lower iis_auth_env t) in
    if failed_code hr then (hr, t1) else add_hosting lower a t1

-- `InitEnvironmentVariablesTable`. A table that a failure leaves is freed.
unfoldable pub init_environment_variables_table :
    (ℕ → ℕ) → InitAnswers → Settings → Table → Code × Table
init_environment_variables_table lower a g configured =
    let t = copy_to_table lower a.copy a.copy_node configured [] in
    if not a.table_memory
    then (failure out_of_memory, [])
    else if failed_code a.initialized
    then (a.initialized, [])
    else if not (length t == length configured)
    then (failure unexpected, [])
    else add_auth lower a g t

-- The copy of the value, and the entry.
pub record WebsocketAnswers : Type 0 where
  pub copy : Code
  pub entry : EntryAnswers

unfoldable pub add_websocket_enabled : (ℕ → ℕ) → WebsocketAnswers → Bool → Table → Code × Table
add_websocket_enabled lower a enabled t =
    let t1 = delete_found lower websockets_env t in
    if failed_code a.copy
    then (a.copy, t1)
    else put_entry_for lower a.entry
        (record { name = websockets_env; value = if enabled then codes "true" else codes "false" })
        t1

-- What AppendEnvironmentVariables meets for a record: the copy of the name, the variable of the process, the
-- appends, and `Initialize` of the record.
pub record AppendAnswers : Type 0 where
  pub copy_name : Code
  pub current : ReadAnswer
  pub append : Code
  pub initialized : Code

abbrev pub append_value_to : Text → AppendAnswers → Entry → Code × Entry
append_value_to value a e =
    let hr = first_failure (a.append ∷ []) a.initialized in
    (hr, (if failed_code hr then e else record e { value = value }))

unfoldable pub append_environment_variable : AppendAnswers → Entry → Code × Entry
append_environment_variable a e =
    if failed_code a.copy_name then (a.copy_name, e) else elim a.current [
      | read_error n ↦ (failure (last_error n), e)
      | unreadable ↦ (failure unexpected, e)
      | not_defined ↦ append_value_to e.value a e
      | defined v ↦ append_value_to (v ++ (59 ∷ e.value)) a e
    ]

-- `Apply` of AppendEnvironmentVariables: each record is changed in place, and the last failure stays.
unfoldable pub append_environment_variables : (Text → AppendAnswers) → Code → Table → Code × Table
unfolding append_environment_variable
append_environment_variables a hr [] = (hr, [])
append_environment_variables a hr (e ∷ t) =
    let (hr1, e1) = append_environment_variable (a e.name) e in
    let (hr2, t2) = append_environment_variables a (if failed_code hr1 then hr1 else hr) t in
    (hr2, e1 ∷ t2)

-- The text before the last '=', if there is one.
abbrev pub before_equals : Text → Option Text
before_equals [] = none
before_equals (c ∷ t) = elim (before_equals t) [
  | some p ↦ some (c ∷ p)
  | none ↦ if c == 61 then some [] else none
]

abbrev pub strip_equals : Text → Text
strip_equals t = elim (before_equals t) [ none ↦ t | some p ↦ p ]

-- `Apply` of SetEnvironmentVariables: the code, and the variables that are set, the latest first. The codes
-- are those of the copy of the name and of SetEnvironmentVariable.
unfoldable pub set_environment_variables :
    (Text → Code × Code) → Code → List (Text × Text) → Table → Code × List (Text × Text)
set_environment_variables a hr out [] = (hr, out)
set_environment_variables a hr out (e ∷ t) =
    let (copied, put) = a e.name in
    let variable : Text × Text = (strip_equals e.name, e.value) in
    if failed_code copied
    then (set_environment_variables a copied out t)
    else if failed_code put
    then set_environment_variables a put out t
    else set_environment_variables a hr (variable ∷ out) t
