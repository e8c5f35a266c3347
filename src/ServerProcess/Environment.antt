-- ===== src/ServerProcess/Environment.antt =====
-- The environment of a server process: SetupAppPath, SetupAppToken and OutputEnvironmentVariables of
-- AspNetCoreModuleV2/RequestHandler/outofprocess/serverprocess.cxx, and the table of
-- CommonLib/environmentvariablehash.h as the list of its records, in the order of Apply.
use iisintegration.Prelude.{
  ℕ, Bool, true, false, not, ◌&&◌, List, [], ◌∷◌, ◌++◌, Option, none, some, ◌==◌, if◌then◌else◌,
  codes,
}
use iisintegration.ServerProcess.{Text, Server}
use iisintegration.ServerProcess.Codes.{
  Code, success, failure, rpc_status, out_of_memory, already_exists, invalid_environment,
  failed_code,
}

-- A name ends with '='.
pub record Entry : Type 0 where
  pub name : Text
  pub value : Text

abbrev pub Table : Type 0
Table = List Entry

-- Whether there is memory for a node or for an appended text.
abbrev pub Memory : Type 0
Memory = Text → Bool

-- `_wcsicmp(a, b) == 0`, with the case mapping of the C library.
abbrev pub same_name : (ℕ → ℕ) → Text → Text → Bool
same_name lower [] [] = true
same_name lower [] (d ∷ q) = false
same_name lower (c ∷ p) [] = false
same_name lower (c ∷ p) (d ∷ q) = lower c == lower d && same_name lower p q

abbrev pub find_entry : (ℕ → ℕ) → Text → Table → Option Entry
find_entry lower n [] = none
find_entry lower n (e ∷ t) = if same_name lower e.name n then some e else find_entry lower n t

-- `DeleteKey`: the first record of the name.
abbrev pub delete_entry : (ℕ → ℕ) → Text → Table → Table
delete_entry lower n [] = []
delete_entry lower n (e ∷ t) = if same_name lower e.name n then t else e ∷ delete_entry lower n t

-- `InsertRecord`
abbrev pub insert_entry : (ℕ → ℕ) → Memory → Entry → Table → Code × Table
insert_entry lower node e t =
    if not (node e.name) then (failure out_of_memory, t) else elim (find_entry lower e.name t) [
      | some d ↦ (failure already_exists, t)
      | none ↦ (success, e ∷ t)
    ]

abbrev pub app_path_env : Text
app_path_env = codes "ASPNETCORE_APPL_PATH="

abbrev pub app_token_env : Text
app_token_env = codes "ASPNETCORE_TOKEN="

-- The allocation of an entry and its `Initialize`.
pub record EntryAnswers : Type 0 where
  pub memory : Bool
  pub initialized : Code
  pub node : Memory

abbrev pub put_entry_for : (ℕ → ℕ) → EntryAnswers → Entry → Table → Code × Table
put_entry_for lower a e t =
    if not a.memory
    then (failure out_of_memory, t)
    else if failed_code a.initialized
    then (a.initialized, t)
    else insert_entry lower a.node e t

abbrev pub delete_found : (ℕ → ℕ) → Text → Table → Table
delete_found lower n t = elim (find_entry lower n t) [ none ↦ t | some e ↦ delete_entry lower n t ]

-- A user should not set this variable; it is replaced.
unfoldable pub setup_app_path : (ℕ → ℕ) → EntryAnswers → Text → Table → Code × Table
setup_app_path lower a virtual_path t =
    put_entry_for lower a (record { name = app_path_env; value = virtual_path })
      (delete_found lower app_path_env t)

-- What the calls of SetupAppToken return: the copy of the user's value, the status of UuidCreate, the
-- status of UuidToStringA with the text, its copy, the copy into `strAppToken`, and the entry.
pub record TokenAnswers : Type 0 where
  pub copy_user : Code
  pub uuid_create : Option ℕ
  pub uuid_to_string : Option ℕ
  pub uuid : Text
  pub copy_uuid : Code
  pub copy_token : Code
  pub entry : EntryAnswers

-- The GUID, made once. `none` is RPC_S_OK; an RPC status goes to `hr` without the macro.
abbrev pub make_guid : TokenAnswers → Text → Code × Text
make_guid a [] = elim a.uuid_create [
  | some e ↦ (rpc_status e, [])
  | none ↦ elim a.uuid_to_string [
    | some e ↦ (rpc_status e, [])
    | none ↦ if failed_code a.copy_uuid then (a.copy_uuid, []) else (success, a.uuid)
  ]
]
make_guid a (c ∷ g) = (success, c ∷ g)

abbrev pub is_success : Code → Bool
is_success success = true
is_success _ = false

-- `hr` is not assigned where the copy into `strAppToken` fails.
unfoldable pub setup_app_token : (ℕ → ℕ) → TokenAnswers → Table → Server → Code × (Table × Server)
setup_app_token lower a t s = elim (find_entry lower app_token_env t) [
  | some e ↦ (a.copy_user, (t, record s { guid = if failed_code a.copy_user then [] else e.value }))
  | none ↦
      let (hr, g) = make_guid a s.guid in
      let s1 = record s { guid = g } in
      let (hr1, t1) = put_entry_for lower a.entry (record { name = app_token_env; value = g }) t in
      if not (is_success hr)
      then (hr, (t, s1))
      else if not a.entry.memory
      then (failure out_of_memory, (t, s1))
      else if failed_code a.copy_token
      then (success, (t, s1))
      else (hr1, (t1, s1))
]

abbrev pub cons_name : ℕ → Option (Text × Text) → Option (Text × Text)
cons_name c none = none
cons_name c (some (n, v)) = some (c ∷ n, v)

-- The name up to the first '=' and the rest; `none` where there is no '='.
abbrev pub split_name : Text → Option (Text × Text)
split_name [] = none
split_name (c ∷ t) =
    let rest = split_name t in if c == 61 then some (c ∷ [], t) else cons_name c rest

-- What the copies of OutputEnvironmentVariables return, by the text: the name, and name and value
-- together; and whether the output has memory for a text.
pub record OutputAnswers : Type 0 where
  pub copy_name : Text → Code
  pub append_value : Text → Code
  pub memory : Memory

-- `MULTISZ::Append`, whose result is ignored.
abbrev pub append_text : Memory → List Text → Text → List Text
append_text memory out t = if memory t then out ++ (t ∷ []) else out

-- `CopyToMultiSz` for each record of the table.
abbrev pub copy_rest : Memory → List Text → Table → List Text
copy_rest memory out [] = out
copy_rest memory out (e ∷ t) = copy_rest memory (append_text memory out (e.name ++ e.value)) t

-- A variable of the worker process whose name is `n`, with what the table has for it.
abbrev pub merge_found :
    OutputAnswers
    → (ℕ → ℕ)
    → Text
    → Text
    → Option Entry
    → List Text
    → Table
    → Code × (List Text × Table)
merge_found a lower v n none out t = (success, (append_text a.memory out v, t))
merge_found a lower v n (some e) out t =
    if failed_code (a.append_value (n ++ e.value))
    then (a.append_value (n ++ e.value), (out, t))
    else (success, (append_text a.memory out (n ++ e.value), delete_entry lower e.name t))

abbrev pub merge_one :
    OutputAnswers
    → (ℕ → ℕ)
    → Text
    → Option (Text × Text)
    → List Text
    → Table
    → Code × (List Text × Table)
merge_one a lower v none out t = (failure invalid_environment, (out, t))
merge_one a lower v (some (n, rest)) out t =
    if failed_code (a.copy_name n)
    then (a.copy_name n, (out, t))
    else merge_found a lower v n (find_entry lower n t) out t

-- The loop over the environment of the worker process.
unfoldable pub merge :
    OutputAnswers → (ℕ → ℕ) → List Text → List Text → Table → Code × (List Text × Table)
merge a lower [] out t = (success, (copy_rest a.memory out t, t))
merge a lower (v ∷ vs) out t =
    let (hr, (out1, t1)) = merge_one a lower v (split_name v) out t in
    let rest = merge a lower vs out1 t1 in if failed_code hr then (hr, (out1, t1)) else rest

-- `none` for the environment is NULL.
unfoldable pub output_environment_variables :
    (ℕ → ℕ) → OutputAnswers → Option (List Text) → Table → Code × (List Text × Table)
unfolding merge
output_environment_variables lower a none t = (failure invalid_environment, ([], t))
output_environment_variables lower a (some vs) t = merge a lower vs [] t
