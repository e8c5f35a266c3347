-- ===== src/ApplicationManager/Recycle.antt =====
-- RecycleApplicationFromManager and FindConfigChangedApplication of APPLICATION_MANAGER, in
-- AspNetCoreModuleV2/AspNetCore/src/applicationmanager.cxx.
use iisintegration.Prelude.{
  ℕ, ◌<◌, ◌≡◌, ◌↔◌, inl, inr, refl, ap, Bool, true, false, not, List, [], ◌∷◌, ◌++◌, none, some,
  arith, map, length, get_or, All, Bool-cases, ◌==◌, if◌then◌else◌, ◌&&◌, subst, ◌||◌,
}
use iisintegration.Prelude.Win32.{s_ok, failed, unlocked, exclusive}
use iisintegration.ApplicationManager.{
  Text, same, HostingModel, hosting_unknown, hosting_out_process, Info, Manager, System, Call,
  recycle_process, reference, dereference, recycle_application, find_key, keep, nothing_left,
  starts_with, slash, find_config_changed_application, recycle_paths, recycle_with, recycle_kept,
  finish_recycle, remove_changed, recycle_locked, recycle_application_from_manager,
  get_or_create_application_info, find_info, same_model, hosting_in_process,
}
use iisintegration.ApplicationManager.Shutdown.{calls_of, call_each_lem}
use iisintegration.ApplicationManager.Hosting.{IsHosted, same_refl}

starts_with-append :
    (up : ℕ → ℕ) (p q : Text)
    → starts_with up p q ≡ true
    → (a : Text) × (rest : Text) × (p ≡ a ++ rest)
      × (map up a ≡ map up q)
      × ((d : ℕ) → get_or p (length q) d ≡ get_or rest 0 d)
starts_with-append up p [] h = ([], p, refl, refl, λ d. refl)
starts_with-append up [] (b ∷ q) h = absurd (ground arith)
starts_with-append up (x ∷ p) (b ∷ q) h =
    let e : up x ≡ up b = ground arith in
    let (a, rest, s, m, g) = starts_with-append up p q (ground arith) in
    (x ∷ a, rest, ap (λ (v : Text). x ∷ v) s, rw (e, m), g)

append-starts_with :
    (up : ℕ → ℕ) (a q rest : Text)
    → map up a ≡ map up q
    → (starts_with up (a ++ rest) q ≡ true)
      × ((d : ℕ) → get_or (a ++ rest) (length q) d ≡ get_or rest 0 d)
append-starts_with up [] [] rest h = (refl, λ d. refl)
append-starts_with up [] (b ∷ q) rest h = absurd (ground arith)
append-starts_with up (x ∷ a) [] rest h = absurd (ground arith)
append-starts_with up (x ∷ a) (b ∷ q) rest h =
    let e : up x ≡ up b = ground arith in
    let t : map up a ≡ map up q = ground arith in
    let (s, g) = append-starts_with up a q rest t in (ground arith, g)

-- Nothing, or a path below.
abbrev pub IsSubPath : Text → Type 0
IsSubPath [] = Unit
IsSubPath (c ∷ rest) = c ≡ slash

abbrev ends : ℕ → Bool
ends c = c == 0 || c == slash

ends-IsSubPath :
    (rest : Text) → All (λ c. 0 < c) rest → ends (get_or rest 0 0) ≡ true → IsSubPath rest
ends-IsSubPath [] z h = tt
ends-IsSubPath (c ∷ rest) z h = let p : 0 < c = z.0 in ground arith

IsSubPath-ends : (rest : Text) → IsSubPath rest → ends (get_or rest 0 0) ≡ true
IsSubPath-ends [] h = refl
IsSubPath-ends (c ∷ rest) h = ground arith

All-drop : (a rest : Text) → All (λ c. 0 < c) (a ++ rest) → All (λ c. 0 < c) rest
All-drop [] rest z = z
All-drop (x ∷ a) rest z = All-drop a rest z.1

-- FindConfigChangedApplication, for a configuration path without the terminating character,
-- answers true exactly when the path is the changed one, up to case, or one below it, and not
-- for another path with the same beginning.
pub find_config_changed_application_lem :
    (up : ℕ → ℕ) (changed : Text) (i : Info)
    → All (λ c. 0 < c) i.path
    → (find_config_changed_application up changed i ≡ true) ↔ (
        (a : Text) × (rest : Text) × (i.path ≡ a ++ rest)
        × (map up a ≡ map up changed)
        × IsSubPath rest)
unfolding find_config_changed_application
find_config_changed_application_lem up changed i z = (
  λ h.
      let (a, rest, s, m, g) = starts_with-append up i.path changed (ground arith) in
      let same_char = g 0 in
      let last : ends (get_or rest 0 0) ≡ true = ground arith in
      (a, rest, s, m, ends-IsSubPath rest (All-drop a rest (subst (All (λ c. 0 < c)) s z)) last),
  λ (a, rest, s, m, b).
      let (r, g) = append-starts_with up a changed rest m in
      let same_char = g 0 in
      let last = IsSubPath-ends rest b in
      rw (find_config_changed_application, s, r, same_char) last,
)

same_symm : (p q : Text) → same p q ≡ same q p
same_symm [] [] = refl
same_symm [] (b ∷ q) = refl
same_symm (a ∷ p) [] = refl
same_symm (a ∷ p) (b ∷ q) = ground (arith, same_symm p q)

-- Each record of a part of the table is what the table has for its path.
abbrev IsFoundIn : List Info → Info → Type 0
IsFoundIn t i = find_key i.path t ≡ some i

unequal_paths :
    (p : Text) (t : List Info) → find_key p t ≡ none → All (λ k. same k.path p ≡ false) t
unequal_paths p [] n = tt
unequal_paths p (k ∷ t) n = elim (Bool-cases (same k.path p)) [
  | inl e ↦ absurd (ground arith)
  | inr e ↦ (e, unequal_paths p t (ground arith))
]

behind :
    (j : Info) (t us : List Info)
    → All (λ k. same k.path j.path ≡ false) us
    → All (IsFoundIn t) us
    → All (IsFoundIn (j ∷ t)) us
behind j t [] a b = tt
behind j t (k ∷ us) (e, a) (f, b) = (rw (same_symm j.path k.path, e, f), behind j t us a b)

found_each : (t : List Info) → IsHosted hosting_out_process t → All (IsFoundIn t) t
found_each [] h = tt
found_each (j ∷ t) (e, n, h) =
    (rw (same_refl j.path), behind j t t (unequal_paths j.path t n) (found_each t h))

keep-All : (P : Info → Type 0) (f : Info → Bool) (t : List Info) → All P t → All P (keep f t)
keep-All P f [] a = tt
keep-All P f (i ∷ t) a = elim (Bool-cases (f i)) [
  | inl e ↦ rw e (a.0, keep-All P f t a.1)
  | inr e ↦ rw e (keep-All P f t a.1)
]

keep_all : (f : Info → Bool) (t : List Info) → ((i : Info) → f i ≡ true) → keep f t ≡ t
keep_all f [] h = refl
keep_all f (i ∷ t) h = rw (h i, keep_all f t h)

-- The calls for each recycled record, before the earlier ones.
abbrev pub recycle_calls : List Info → List Call → List Call
recycle_calls [] cs = cs
recycle_calls (i ∷ is) cs =
    recycle_calls is (dereference i ∷ recycle_application i ∷ reference i ∷ cs)

recycle_paths_lem :
    (s : System) (t us : List Info) (m : Manager)
    → ((q : Text) → failed (s.key q) ≡ false)
    → All (IsFoundIn t) us
    → recycle_paths s t us m ≡ some (s_ok, record m { calls = recycle_calls us m.calls })
unfolding recycle_paths
recycle_paths_lem s t [] m k a = refl
recycle_paths_lem s t (i ∷ us) m k (e, a) =
    rw (recycle_paths, e, k i.path) (recycle_paths_lem s t us _ k a)

not_kept : (b : Bool) → (b && false) ≡ false
not_kept true = refl
not_kept false = refl

recycle_with_lem :
    (s : System) (t us left : List Info) (m : Manager)
    → m.hosting_model ≡ hosting_out_process
    → ((q : Text) → failed (s.key q) ≡ false)
    → All (IsFoundIn t) us
    → recycle_with s t us left m
      ≡ some (
        s_ok,
        record m {
          hash = some left;
          hosting_model = if nothing_left left then hosting_unknown else hosting_out_process;
          lock = unlocked;
          calls =
              calls_of dereference t
                (recycle_calls us (calls_of dereference us (calls_of reference t m.calls)));
        },
      )
unfolding recycle_with recycle_kept finish_recycle remove_changed recycle_paths
recycle_with_lem s t us left m g k a =
    let kept_table : (not (nothing_left us) && same_model m.hosting_model hosting_in_process)
        ≡ false =
      rw g (not_kept _) in
    let copied = call_each_lem reference t m in
    let m1 = record m { calls = calls_of reference t m.calls } in
    let removed = call_each_lem dereference us m1 in
    let m2 = record m {
      hash = some left;
      hosting_model = if nothing_left left then hosting_unknown else m.hosting_model;
      lock = unlocked;
      calls = calls_of dereference us m1.calls;
    } in
    let m3 = record m2 { calls = recycle_calls us m2.calls } in
    rw (
      recycle_with,
      kept_table,
      recycle_kept,
      copied,
      removed,
      recycle_paths_lem s t us m2 k a,
      call_each_lem dereference t m3,
      g,
      not_kept (not (nothing_left us)),
    )

module _ (s : System) (p : Text) (t : List Info) (m : Manager) where
  abbrev pub gone : List Info
  gone = keep (find_config_changed_application s.upcase p) t

  abbrev pub kept : List Info
  kept = keep (λ i. not (find_config_changed_application s.upcase p i)) t

  -- The calls on the records: the copy takes a reference to each, the table gives up those that
  -- leave it, these are recycled, and the copy gives up its references.
  abbrev pub all_calls : List Call
  all_calls =
      calls_of dereference t
        (recycle_calls gone (calls_of dereference gone (calls_of reference t m.calls)))

  -- RecycleApplicationFromManager, out of process and not in shutdown, with the lock free, no two
  -- records of one path, and successful keys and allocations, removes exactly the records that the
  -- change concerns and recycles each of them, forgets the hosting model when nothing is left, and
  -- returns S_OK with the lock free. The calls on the records are, in this order: a reference to
  -- each record, a release of each removed one, for each removed one a reference, the recycling
  -- and a release, and a release of each record.
  pub recycle_application_from_manager_lem :
      m.hash ≡ some t
      → m.lock ≡ unlocked
      → m.in_shutdown ≡ false
      → m.hosting_model ≡ hosting_out_process
      → IsHosted hosting_out_process t
      → ((q : Text) → failed (s.key q) ≡ false)
      → s.table_memory ≡ true
      → failed s.table_initialized ≡ false
      → ((i : Info) → s.node i ≡ true)
      → recycle_application_from_manager s p m
        ≡ some (
          s_ok,
          record m {
            hash = some kept;
            hosting_model = if nothing_left kept then hosting_unknown else hosting_out_process;
            lock = unlocked;
            calls = all_calls;
          },
        )
  unfolding recycle_application_from_manager recycle_locked
  recycle_application_from_manager_lem e l d g h k tm ti n =
      let copied = keep_all s.node t n in
      let step : recycle_application_from_manager s p m
          ≡ recycle_locked s p (record m { lock = exclusive }) =
        ground arith in
      let locked : recycle_locked s p (record m { lock = exclusive })
          ≡ recycle_with s (keep s.node t) gone kept (record m { lock = exclusive }) =
        let key_made = k p in ground arith in
      let found =
        keep-All (IsFoundIn t) (find_config_changed_application s.upcase p) t (found_each t h) in
      rw (step, locked, copied)
        (recycle_with_lem s t gone kept (record m { lock = exclusive }) g k found)

-- When, with the lock free and not in shutdown, the key of the changed path cannot be made,
-- RecycleApplicationFromManager returns that error with the exclusive lock held, and asks the
-- server to recycle the process unless that was asked before: every later request whose key can be
-- made waits forever.
pub recycle_application_from_manager_locks :
    (s : System) (p : Text) (m : Manager)
    → m.lock ≡ unlocked
    → m.in_shutdown ≡ false
    → failed (s.key p) ≡ true
    → let stuck = record m {
      lock = exclusive;
      recycle_process_called = true;
      calls = if m.recycle_process_called then m.calls else recycle_process ∷ m.calls;
    } in
      (recycle_application_from_manager s p m ≡ some (s.key p, stuck))
      × ((s2 : System) (q : Text) (h : HostingModel)
          → failed (s2.key q) ≡ false
          → get_or_create_application_info s2 q h stuck ≡ none)
unfolding recycle_application_from_manager get_or_create_application_info find_info finish_recycle
    recycle_locked
recycle_application_from_manager_locks s p m l d k = (
  elim (Bool-cases m.recycle_process_called) [ inl e ↦ ground arith | inr e ↦ ground arith ],
  λ s2 q h g. ground arith,
)
