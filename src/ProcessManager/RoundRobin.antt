-- ===== src/ProcessManager/RoundRobin.antt =====
-- The order in which GetProcess of PROCESS_MANAGER hands out the processes, and what Initialize
-- leaves behind, in AspNetCoreModuleV2/RequestHandler/outofprocess/processmanager.cxx.
use iisintegration.Prelude.{
  ℕ, zero, suc, ◌+◌, ◌%◌, ◌<◌, ◌≡◌, refl, arith, true, false, List, [], ◌∷◌, Option, none, some,
  length, get_elem?, get_or, get_elem?-get_or, All, ap, ◌∙◌,
}
use native.Mathlib.Nat.{mod-lt}
use iisintegration.Prelude.Win32.{
  HResult, s_ok, unlocked, hresult_from_win32, Win32Error, error_success,
}
use iisintegration.ProcessManager.{
  dword, Process, Manager, Config, System, get_process, ready_process, ensure_list, serve,
  initialize, no_handle, invalid_handle,
}
use iisintegration.ProcessManager.Serve.{IsListed, routed, index_of, route_lem}

-- Requests one after another, with their answers.
abbrev pub get_processes :
    Config → List System → Manager → Option (List (HResult × Option Process) × Manager)
get_processes c [] m = some ([], m)
get_processes c (s ∷ ss) m = elim (get_process c s m) [
  | none ↦ none
  | some (r, m1) ↦ elim (get_processes c ss m1) [ none ↦ none | some (rs, m2) ↦ some (r ∷ rs, m2) ]
]

-- The entries in turn, from the index after `r`.
abbrev pub in_turn : ℕ → ℕ → List (Option Process) → ℕ → List (HResult × Option Process)
in_turn r w l zero = []
in_turn r w l (suc k) = (s_ok, get_or l ((r + 1) % w) none) ∷ in_turn (r + 1) w l k

abbrev pub IsReady : Option Process → Type 0
IsReady none = ⊥
IsReady (some p) = p.ready ≡ true

-- The manager after `k` requests that it served at once.
abbrev pub turned : ℕ → Manager → Manager
turned k m = record m { route_to_process_index = m.route_to_process_index + k; lock = unlocked }

get_or-IsReady :
    (l : List (Option Process)) (i : ℕ)
    → All IsReady l
    → i < length l
    → (p : Process) × (get_or l i none ≡ some p) × (p.ready ≡ true)
get_or-IsReady [] i a h = absurd (omega arith)
get_or-IsReady (none ∷ l) zero a h = absurd a.0
get_or-IsReady (some p ∷ l) zero a h = (p, refl, a.0)
get_or-IsReady (e ∷ l) (suc i) a h = get_or-IsReady l i a.1 (omega arith)

module _ (w : ℕ) (c : Config) (l : List (Option Process)) (size : length l ≡ w) (positive : 0 < w)
    (ready : All IsReady l) where
  turn :
      (s : System) (m : Manager)
      → m.lock ≡ unlocked
      → m.list_ready ≡ true
      → m.server_process_list ≡ some l
      → m.processes_per_application ≡ w
      → m.rapid_fail_count < dword
      → m.route_to_process_index + 1 < dword
      → get_process c s m ≡ some ((s_ok, get_or l (index_of w m) none), routed m)
  unfolding get_process ensure_list
  turn s m u b h n k low =
      let inside : index_of w m < length l =
        omega (arith, mod-lt (m.route_to_process_index + 1) positive) in
      let (p, e, r) = get_or-IsReady l (index_of w m) ready inside in
      let listed : IsListed w m = (rw h size, n, positive) in
      let skip : ensure_list c s m ≡ some (s_ok, m) = ground arith in
      let here : get_elem? l (index_of w m) ≡ some (some p) =
        get_elem?-get_or l (index_of w m) none inside ∙ ap some e in
      let is : ready_process (some p) ≡ some p = ground arith in
      rw (get_process, skip, serve, route_lem w c s l m u h listed k low (some p) here, is, e)

  -- With the lock free and a nonempty list of processes that are all ready, requests one after
  -- another, fewer than 2^32 in all, are served by its entries in turn, from the one after the
  -- index, each with S_OK; they change nothing but the index, which advances by their number.
  pub get_processes-in_turn :
      (ss : List System) (m : Manager)
      → m.lock ≡ unlocked
      → m.list_ready ≡ true
      → m.server_process_list ≡ some l
      → m.processes_per_application ≡ w
      → m.rapid_fail_count < dword
      → m.route_to_process_index + length ss < dword
      → get_processes c ss m
        ≡ some (in_turn m.route_to_process_index w l (length ss), turned (length ss) m)
  get_processes-in_turn [] m u b h n k low = ground arith
  get_processes-in_turn (s ∷ ss) m u b h n k low =
      let low1 : m.route_to_process_index + 1 < dword = omega arith in
      let low2 : m.route_to_process_index + 1 + length ss < dword = omega arith in
      let rest = get_processes-in_turn ss (routed m) refl b h n k low2 in
      rw (get_processes, turn s m u b h n k low1, rest) (ground arith)

-- With the lock free, WSAStartup successful and no handle yet: when the NUL device cannot be
-- opened, Initialize fails and leaves INVALID_HANDLE_VALUE as the handle; called again it returns
-- S_OK and keeps that handle.
pub initialize_retry :
    (s : System) (e : Win32Error) (m : Manager)
    → m.lock ≡ unlocked
    → m.nul_handle ≡ no_handle
    → s.wsa_startup ≡ error_success
    → s.nul_file ≡ some e
    → let failed_once = record m {
      rapid_fail_tick_start = s.tick_count;
      nul_handle = invalid_handle;
      lock = unlocked;
    } in
      (initialize s false m ≡ some ((hresult_from_win32 e, true), failed_once))
      × (initialize s true failed_once ≡ some ((s_ok, true), failed_once))
unfolding initialize
initialize_retry s e m u n w f = ground arith
