-- ===== src/ProcessManager/Serve.antt =====
-- GetProcess of PROCESS_MANAGER, in
-- AspNetCoreModuleV2/RequestHandler/outofprocess/processmanager.cxx: its three locked parts and the
-- whole.
use iisintegration.Prelude.{
  ℕ, ◌+◌, ◌%◌, ◌<◌, ◌≡◌, refl, ap, not, ◌∙◌, sym, arith, Bool, true, false, List, [], Option, none,
  some, ◌==◌, length, map, replicate, set, get_elem?, get_or, inl, inr, ◌⊎◌, Bool-cases, gt→leb,
  length-set, length-replicate, get_elem?-get_or, get_elem?-lt, get_or-set_self, subst, if-both,
}
use native.Mathlib.Nat.{mod-lt}
use iisintegration.Prelude.Win32.{HResult, s_ok, failed, unlocked, exclusive, shared}
use iisintegration.ProcessManager.{
  dword, Process, Manager, Config, System, release, acquire, ensure_list, ready_process, create_at,
  reset_window, entry_at, route, start_process, create_process, retire, replace_entry, replace,
  recheck, serve, get_process, rapid_fails_per_minute_exceeded, shutdown_process_no_lock,
}
use iisintegration.ProcessManager.Shutdown.{
  shutdown_process_no_lock_lem, close, close_at, length-close, after_stops, on_port,
}

abbrev pub entries : Option (List (Option Process)) → List (Option Process)
entries none = []
entries (some l) = l

-- The list has the `w` entries that the manager counts, and at least one.
abbrev pub IsListed : ℕ → Manager → Type 0
IsListed w m =
    (length (entries m.server_process_list) ≡ w) × (m.processes_per_application ≡ w) × (0 < w)

abbrev pub IsValid : Manager → Type 0
IsValid m =
    (m.rapid_fail_count < dword) × ((m.list_ready ≡ false) ⊎ IsListed m.processes_per_application m)

-- A process that is handed out is ready and stands in the list; without one there is an error.
abbrev pub IsServed : ℕ → HResult × Option Process → Manager → Type 0
IsServed i (hr, none) m = failed hr ≡ true
IsServed i (hr, some p) m = (hr ≡ s_ok) × (p.ready ≡ true) × (entry_at i m ≡ some (some p))

-- Such an outcome, and a valid manager with a list.
abbrev pub IsDone : ℕ → ℕ → (HResult × Option Process) × Manager → Type 0
IsDone w i (r, m) = IsServed i r m × IsListed w m × (m.rapid_fail_count < dword)

-- No fault, and that.
abbrev pub Serves : ℕ → ℕ → Option ((HResult × Option Process) × Manager) → Type 0
Serves w i none = ⊥
Serves w i (some r) = IsDone w i r

unnegated : (b : Bool) → not b ≡ false → b ≡ true
unnegated true h = refl
unnegated false h = absurd (ground arith)

start_process-IsDone :
    (w : ℕ) (s : System) (i : ℕ) (l : List (Option Process)) (m : Manager)
    → m.server_process_list ≡ some l
    → IsListed w m
    → i < length l
    → m.rapid_fail_count < dword
    → IsDone w i (start_process s i l m)
start_process-IsDone w s i l m h n lt c =
    if-both (IsDone w i) (not s.process_memory) _ _ (λ _. (refl, n, c))
      (λ _.
        if-both (IsDone w i) (failed s.initialized) _ _ (λ e. (e, n, c))
          (λ _.
            if-both (IsDone w i) (failed s.start) _ _ (λ e. (e, n, c))
              (λ _.
                if-both (IsDone w i) (not s.started.ready) _ _ (λ _. (refl, n, c))
                  (λ e. (
                    (
                      refl,
                      unnegated s.started.ready e,
                      get_elem?-get_or (set l i (some s.started)) i none
                            (omega (arith, length-set l i (some s.started)))
                          ∙ ap some (get_or-set_self l i (some s.started) none lt),
                    ),
                    ground (arith, length-set l i (some s.started)),
                    c,
                  )))))

create_at-Serves :
    (w : ℕ) (s : System) (i : ℕ) (l : List (Option Process)) (m : Manager)
    → m.server_process_list ≡ some l
    → IsListed w m
    → get_elem? l i ≡ some none
    → i < length l
    → m.rapid_fail_count < dword
    → Serves w i (create_at s i m)
create_at-Serves w s i l m h n e lt k =
    rw (create_at, h, e) (start_process-IsDone w s i l m h n lt k)

reset_window_lem :
    (now : ℕ) (m : Manager)
    → m.rapid_fail_count < dword
    → ((reset_window now m).server_process_list ≡ m.server_process_list)
      × ((reset_window now m).processes_per_application ≡ m.processes_per_application)
      × ((reset_window now m).rapid_fail_count < dword)
unfolding reset_window
reset_window_lem now m h = ground arith

create_process-Serves :
    (w : ℕ) (c : Config) (s : System) (i : ℕ) (l : List (Option Process)) (m : Manager)
    → m.server_process_list ≡ some l
    → IsListed w m
    → get_elem? l i ≡ some none
    → i < length l
    → m.rapid_fail_count < dword
    → Serves w i (create_process c s i m)
unfolding rapid_fails_per_minute_exceeded
create_process-Serves w c s i l m h n e lt k =
    let (a, b, d) = reset_window_lem s.tick_count m k in
    let listed : IsListed w (reset_window s.tick_count m) = ground arith in
    if-both (Serves w i) (rapid_fails_per_minute_exceeded s.tick_count c.rapid_fails_per_minute m).0
      _ _ (λ _. (refl, listed, d))
      (λ _. create_at-Serves w s i l (reset_window s.tick_count m) (a ∙ h) listed e lt d)

-- What a retired entry leaves is empty, and the process is created there.
retire-Serves :
    (w : ℕ) (c : Config) (s : System) (i : ℕ) (e : Option Process) (l : List (Option Process))
    (m : Manager)
    → m.server_process_list ≡ some l
    → IsListed w m
    → get_elem? l i ≡ some e
    → m.rapid_fail_count < dword
    → Serves w i (elim (retire e m) [ none ↦ none | some (_, m1) ↦ create_process c s i m1 ])
unfolding shutdown_process_no_lock
retire-Serves w c s i none l m h n e k =
    create_process-Serves w c s i l m h n e (get_elem?-lt l i none e) k
retire-Serves w c s i (some p) l m h n e k =
    let size : m.processes_per_application ≡ length l = ground arith in
    let m1 = record (after_stops (on_port p.port l) m) {
      server_process_list = some (map (close p.port) l);
    } in
    let lt : i < length (map (close p.port) l) =
      omega (arith, get_elem?-lt l i (some p) e, length-close p.port l) in
    let listed : IsListed w m1 = ground (arith, length-close p.port l) in
    let small : (m.rapid_fail_count + length (on_port p.port l)) % dword < dword = omega arith in
    rw (shutdown_process_no_lock_lem m l h size p.port k) (
      create_process-Serves w c s i (map (close p.port) l) m1 refl listed (close_at l i p e) lt
        small)

process-Serves :
    (w : ℕ) (c : Config) (s : System) (i a : ℕ) (r : Bool) (l : List (Option Process)) (m : Manager)
    → m.server_process_list ≡ some l
    → IsListed w m
    → get_elem? l i ≡ some (some (record { port = a; ready = r }))
    → m.rapid_fail_count < dword
    → Serves w i (replace_entry c s i (some (record { port = a; ready = r })) m)
process-Serves w c s i a true l m h n e k = ((refl, refl, ground arith), n, k)
process-Serves w c s i a false l m h n e k = retire-Serves w c s i _ l m h n e k

replace_entry-Serves :
    (w : ℕ) (c : Config) (s : System) (i : ℕ) (e : Option Process) (l : List (Option Process))
    (m : Manager)
    → m.server_process_list ≡ some l
    → IsListed w m
    → get_elem? l i ≡ some e
    → m.rapid_fail_count < dword
    → Serves w i (replace_entry c s i e m)
replace_entry-Serves w c s i none l m h n e k = retire-Serves w c s i none l m h n e k
replace_entry-Serves w c s i (some p) l m h n e k =
    process-Serves w c s i p.port p.ready l m h n e k

-- The same, with the lock free.
abbrev pub Released : ℕ → ℕ → Option ((HResult × Option Process) × Manager) → Type 0
Released w i none = ⊥
Released w i (some (r, m)) = IsDone w i (r, m) × (m.lock ≡ unlocked)

release-Released :
    (w i : ℕ) (o : Option ((HResult × Option Process) × Manager))
    → Serves w i o
    → Released w i (release o)
release-Released w i none h = h
release-Released w i (some ((hr, none), m)) h = (h, refl)
release-Released w i (some ((hr, some p), m)) h = (h, refl)

recheck_entry-Released :
    (w : ℕ) (c : Config) (s : System) (i : ℕ) (e : Option Process) (l : List (Option Process))
    (m : Manager)
    → m.lock ≡ unlocked
    → m.server_process_list ≡ some l
    → IsListed w m
    → get_elem? l i ≡ some e
    → m.rapid_fail_count < dword
    → Released w i (acquire exclusive (replace c s i) m)
recheck_entry-Released w c s i e l m u h n g k =
    rw (acquire, u, replace, h, g)
      (release-Released w i _
        (replace_entry-Serves w c s i e l (record m { lock = exclusive }) h n g k))

-- The second part has released the lock again, with the next index.
abbrev pub routed : Manager → Manager
routed m = record m { route_to_process_index = m.route_to_process_index + 1; lock = unlocked }

positive : (w : ℕ) → 0 < w → (w == 0) ≡ false
positive w h = ground arith

abbrev pub index_of : ℕ → Manager → ℕ
index_of w m = (m.route_to_process_index + 1) % w

module _ (w : ℕ) (c : Config) (s : System) (l : List (Option Process)) (m : Manager)
    (u : m.lock ≡ unlocked) (h : m.server_process_list ≡ some l) (n : IsListed w m)
    (k : m.rapid_fail_count < dword) (low : m.route_to_process_index + 1 < dword) where
  pub route_lem :
      (e : Option Process)
      → get_elem? l (index_of w m) ≡ some e
      → acquire shared route m ≡ some ((index_of w m, ready_process e), routed m)
  route_lem e g =
      let here : get_elem? l ((m.route_to_process_index + 1) % m.processes_per_application)
          ≡ some e =
        rw n.1 g in
      let some_entries : 0 < m.processes_per_application = omega arith in
      rw
        (
          acquire,
          u,
          route,
          gt→leb dword (m.route_to_process_index + 1) low,
          positive m.processes_per_application some_entries,
          h,
          here,
        )
        (ap
            (λ (o : Option (List (Option Process))). some (
              ((m.route_to_process_index + 1) % m.processes_per_application, ready_process e),
              record (routed m) { server_process_list = o },
            ))
            h
          ∙ ap
              (λ (v : ℕ). some (
                ((m.route_to_process_index + 1) % v, ready_process e),
                record (routed m) { server_process_list = some l },
              ))
              n.1)

  entry-Released :
      (a : ℕ) (r : Bool)
      → get_elem? l (index_of w m) ≡ some (some (record { port = a; ready = r }))
      → Released w (index_of w m) (serve c s m)
  entry-Released a true g = rw (serve, route_lem _ g) (((refl, refl, rw h g), n, k), refl)
  entry-Released a false g =
      rw (serve, route_lem _ g, recheck, h, g)
        (recheck_entry-Released w c s (index_of w m) _ l (routed m) refl h n g k)

  serve_entry-Released :
      (e : Option Process)
      → get_elem? l (index_of w m) ≡ some e
      → Released w (index_of w m) (serve c s m)
  serve_entry-Released none g =
      rw (serve, route_lem none g, recheck, h, g)
        (recheck_entry-Released w c s (index_of w m) none l (routed m) refl h n g k)
  serve_entry-Released (some p) g = entry-Released p.port p.ready g

  serve-Released : Released w (index_of w m) (serve c s m)
  serve-Released =
      let size : length l ≡ w = ground arith in
      serve_entry-Released (get_or l (index_of w m) none) (
        get_elem?-get_or l (index_of w m) none
          (omega (arith, mod-lt (m.route_to_process_index + 1) n.2, size)))

-- An answer to a request: an error, or success with a ready process, which stands in the list at
-- the next index; and in both cases a valid manager with the lock free.
abbrev pub Answers : ℕ → Option ((HResult × Option Process) × Manager) → Type 0
Answers r none = ⊥
Answers r (some ((hr, none), after)) = (failed hr ≡ true) × IsValid after × (after.lock ≡ unlocked)
Answers r (some ((hr, some p), after)) =
    (hr ≡ s_ok)
    × (p.ready ≡ true)
    × (entry_at ((r + 1) % after.processes_per_application) after ≡ some (some p))
    × IsValid after
    × (after.lock ≡ unlocked)

Released-Answers :
    (w : ℕ) (m : Manager) (o : Option ((HResult × Option Process) × Manager))
    → Released w (index_of w m) o
    → Answers m.route_to_process_index o
Released-Answers w m none h = h
Released-Answers w m (some ((hr, none), after)) ((e, n, k), u) =
    (e, (k, inr (n.0 ∙ sym n.1, refl, subst (λ (v : ℕ). 0 < v) (sym n.1) n.2)), u)
Released-Answers w m (some ((hr, some p), after)) (((a, b, e), n, k), u) = (
  a,
  b,
  subst (λ (v : ℕ). entry_at ((m.route_to_process_index + 1) % v) after ≡ some (some p)) (sym n.1)
      e,
  (k, inr (n.0 ∙ sym n.1, refl, subst (λ (v : ℕ). 0 < v) (sym n.1) n.2)),
  u,
)

serve_listed :
    (w : ℕ) (c : Config) (s : System) (m : Manager) (o : Option (List (Option Process)))
    → m.server_process_list ≡ o
    → m.lock ≡ unlocked
    → IsListed w m
    → m.rapid_fail_count < dword
    → m.route_to_process_index + 1 < dword
    → Answers m.route_to_process_index (serve c s m)
serve_listed w c s m none h u n k low = absurd (ground arith)
serve_listed w c s m (some l) h u n k low =
    Released-Answers w m (serve c s m) (serve-Released w c s l m u h n k low)

-- The first part, with memory.
abbrev allocated : Config → Manager → Manager
allocated c m = record m {
  processes_per_application = c.processes_per_application;
  server_process_list = some (replicate c.processes_per_application none);
  list_ready = true;
  lock = unlocked;
}

-- GetProcess, of a valid manager with the lock free, for a configuration with at least one process
-- and below 2^32 - 1 requests, never faults. It answers with an error, or with S_OK and a ready
-- process, which stands in the list at the next index in turn; the manager is valid again and its
-- lock is free, on each path.
pub get_process-Answers :
    (c : Config) (s : System) (m : Manager)
    → IsValid m
    → m.lock ≡ unlocked
    → 0 < c.processes_per_application
    → m.route_to_process_index + 1 < dword
    → Answers m.route_to_process_index (get_process c s m)
unfolding get_process ensure_list
get_process-Answers c s m (k, v) u some_processes low = elim (Bool-cases m.list_ready) [
  | inl b ↦
      let n : IsListed m.processes_per_application m = elim v [
        | inl e ↦ absurd (ground arith)
        | inr n ↦ n
      ] in
      rw (get_process, b)
        (serve_listed _ c s (record m { list_ready = true }) m.server_process_list refl u n k low)
  | inr b ↦ elim (Bool-cases s.list_memory) [
    | inl e ↦
        rw (get_process, b, acquire, u, b, e)
          (serve_listed c.processes_per_application c s (allocated c m)
            (some (replicate c.processes_per_application none)) refl refl
            (length-replicate c.processes_per_application none, refl, some_processes) k low)
    | inr e ↦ rw (get_process, b, acquire, u, b, e) (refl, (k, inl refl), refl)
  ]
]
