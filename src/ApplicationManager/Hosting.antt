-- ===== src/ApplicationManager/Hosting.antt =====
-- GetOrCreateApplicationInfo of APPLICATION_MANAGER, in
-- AspNetCoreModuleV2/AspNetCore/src/applicationmanager.cxx, when no other thread comes between its
-- parts: the hosting models, the table and the lock.
use iisintegration.Prelude.{
  ◌≡◌, refl, subst, true, false, not, List, [], ◌∷◌, Option, none, some, inl, inr, ◌⊎◌, arith,
  Bool-cases, if-both, length, ltb, ==_refl, ◌≢◌,
}
use iisintegration.Prelude.Win32.{
  s_ok, hresult_from_win32, error_app_init_failure, error_server_shutdown_in_progress, failed,
  unlocked,
}
use iisintegration.ApplicationManager.{
  Text, same, HostingModel, hosting_unknown, hosting_in_process, hosting_out_process, Info, Manager,
  System, find_key, Outcome, find_info, check_hosting_model, create_info, create_locked,
  insert_info, decided, is_mixed, create_after_check, create_unless_found,
  get_or_create_application_info, reference_found,
}

abbrev pub records : Option (List Info) → List Info
records none = []
records (some t) = t

-- One hosting model for all the records, one record at most in process, and no path twice.
abbrev pub IsHosted : HostingModel → List Info → Type 0
IsHosted g [] = Unit
IsHosted hosting_unknown (i ∷ t) = ⊥
IsHosted hosting_in_process (i ∷ []) = i.hosting_model ≡ hosting_in_process
IsHosted hosting_in_process (i ∷ j ∷ t) = ⊥
IsHosted hosting_out_process (i ∷ t) =
    (i.hosting_model ≡ hosting_out_process)
    × (find_key i.path t ≡ none)
    × IsHosted hosting_out_process t

-- And there is a table, unless the manager shuts down.
abbrev pub IsValid : Manager → Type 0
IsValid m =
    IsHosted m.hosting_model (records m.hash)
    × ((m.in_shutdown ≡ true) ⊎ (m.hash ≡ some (records m.hash)))

-- No fault, and an error, or success with the record of the path, which the table holds; the
-- manager is valid and the lock free.
abbrev pub IsAnswer : Text → Outcome → Type 0
IsAnswer p ((hr, none), m) = (failed hr ≡ true) × IsValid m × (m.lock ≡ unlocked)
IsAnswer p ((hr, some i), m) =
    (hr ≡ s_ok)
    × (same i.path p ≡ true)
    × (find_key p (records m.hash) ≡ some i)
    × IsValid m
    × (m.lock ≡ unlocked)

abbrev pub Answers : Text → Option Outcome → Type 0
Answers p none = ⊥
Answers p (some r) = IsAnswer p r

pub same_refl : (p : Text) → same p p ≡ true
same_refl [] = refl
same_refl (a ∷ p) = rw (==_refl a) (same_refl p)

pub find_key-same :
    (p : Text) (t : List Info) (i : Info) → find_key p t ≡ some i → same i.path p ≡ true
find_key-same p [] i h = absurd (ground arith)
find_key-same p (j ∷ t) i h = ground (arith, find_key-same p t i)

insert-IsHosted :
    (g h : HostingModel) (i : Info) (t : List Info)
    → i.hosting_model ≡ h
    → IsHosted g t
    → is_mixed g h ≡ false
    → h ≢ hosting_unknown
    → (h ≡ hosting_in_process → t ≡ [])
    → find_key i.path t ≡ none
    → IsHosted (decided g h) (i ∷ t)
insert-IsHosted g hosting_unknown i t e v x u one n = absurd (u refl)
insert-IsHosted hosting_unknown h i (j ∷ t) e v x u one n = absurd v
insert-IsHosted hosting_unknown hosting_in_process i [] e v x u one n = e
insert-IsHosted hosting_unknown hosting_out_process i [] e v x u one n = (e, n, tt)
insert-IsHosted hosting_in_process hosting_in_process i [] e v x u one n = e
insert-IsHosted hosting_in_process hosting_in_process i (j ∷ t) e v x u one n =
    let empty = one refl in absurd (ground arith)
insert-IsHosted hosting_in_process hosting_out_process i t e v x u one n = absurd (ground arith)
insert-IsHosted hosting_out_process hosting_in_process i t e v x u one n = absurd (ground arith)
insert-IsHosted hosting_out_process hosting_out_process i t e v x u one n = (e, n, v)

insert_info-IsAnswer :
    (s : System) (i : Info) (t : List Info) (m : Manager)
    → m.hash ≡ some t
    → m.lock ≡ unlocked
    → IsValid m
    → i.hosting_model ≢ hosting_unknown
    → (i.hosting_model ≡ hosting_in_process → t ≡ [])
    → find_key i.path t ≡ none
    → IsAnswer i.path (insert_info s i t m)
insert_info-IsAnswer s i t m e l v u one n =
    let hosted : IsHosted m.hosting_model t =
      subst (λ o. IsHosted m.hosting_model (records o)) e v.0 in
    if-both (IsAnswer i.path) (is_mixed m.hosting_model i.hosting_model) _ _ (λ _. (refl, v, l))
      (λ mixed.
        if-both (IsAnswer i.path) (failed s.initialized) _ _ (λ x. (x, v, l))
          (λ _.
            if-both (IsAnswer i.path) (not (s.node i)) _ _ (λ _. (refl, v, l))
              (λ _. (
                refl,
                same_refl i.path,
                rw (same_refl i.path),
                (
                  insert-IsHosted m.hosting_model i.hosting_model i t refl hosted mixed u one n,
                  inr refl,
                ),
                l,
              ))))

found-IsAnswer :
    (s : System) (i : Info) (t : List Info) (m : Manager) (o : Option Info)
    → find_key i.path t ≡ o
    → m.hash ≡ some t
    → m.lock ≡ unlocked
    → IsValid m
    → m.in_shutdown ≡ false
    → i.hosting_model ≢ hosting_unknown
    → (i.hosting_model ≡ hosting_in_process → t ≡ [])
    → IsAnswer i.path (create_locked s i t m)
found-IsAnswer s i t m none n e l v d u one =
    rw (create_locked, d, n) (insert_info-IsAnswer s i t m e l v u one n)
found-IsAnswer s i t m (some j) n e l v d u one =
    rw (create_locked, d, n) (refl, find_key-same i.path t j n, rw e n, v, l)

create_info-Answers :
    (s : System) (i : Info) (t : List Info) (m : Manager)
    → m.hash ≡ some t
    → m.lock ≡ unlocked
    → IsValid m
    → m.in_shutdown ≡ false
    → i.hosting_model ≢ hosting_unknown
    → (i.hosting_model ≡ hosting_in_process → t ≡ [])
    → Answers i.path (create_info s i m)
unfolding create_info
create_info-Answers s i t m e l v d u one =
    let step : create_info s i m ≡ some (create_locked s i t m) = ground arith in
    rw step (found-IsAnswer s i t m (find_key i.path t) refl e l v d u one)

no_records : (t : List Info) → ltb 0 (length t) ≡ false → t ≡ []
no_records [] h = refl
no_records (i ∷ t) h = absurd (ground arith)

in_known : hosting_in_process ≢ hosting_unknown
in_known e = absurd (ground arith)

out_known : hosting_out_process ≢ hosting_unknown
out_known e = absurd (ground arith)

out_in : {t : List Info} → hosting_out_process ≡ hosting_in_process → t ≡ []
out_in e = absurd (ground arith)

checked-Answers :
    (s : System) (p : Text) (h : HostingModel) (t : List Info) (m : Manager)
    → m.hash ≡ some t
    → m.lock ≡ unlocked
    → IsValid m
    → m.in_shutdown ≡ false
    → Answers p (create_after_check s p h m)
unfolding check_hosting_model create_info
checked-Answers s p hosting_unknown t m e l v d = (refl, v, l)
checked-Answers s p hosting_out_process t m e l v d =
    if-both (Answers p) (not s.info_memory) _ _ (λ _. (refl, v, l))
      (λ _.
        create_info-Answers s
          (record { address = s.address; path = p; hosting_model = hosting_out_process }) t m e l v
          d out_known out_in)
checked-Answers s p hosting_in_process t m e l v d = elim (Bool-cases (ltb 0 (length t))) [
  | inl b ↦
      let c : check_hosting_model hosting_in_process m
          ≡ some (hresult_from_win32 error_app_init_failure) =
        ground arith in
      rw (create_after_check, c) (refl, v, l)
  | inr b ↦
      let c : check_hosting_model hosting_in_process m ≡ some s_ok = ground arith in
      rw (create_after_check, c)
        (if-both (Answers p) (not s.info_memory) _ _ (λ _. (refl, v, l))
          (λ _.
            create_info-Answers s
              (record { address = s.address; path = p; hosting_model = hosting_in_process }) t m e l
              v d in_known (λ _. no_records t b)))
]

loaded : (m : Manager) → IsValid m → m.in_shutdown ≡ false → m.hash ≡ some (records m.hash)
loaded m v d = elim v.1 [ inl e ↦ absurd (ground arith) | inr e ↦ e ]

found-Answers :
    (s : System) (p : Text) (h : HostingModel) (o : Option Info) (m : Manager)
    → find_key p (records m.hash) ≡ o
    → m.lock ≡ unlocked
    → IsValid m
    → m.in_shutdown ≡ false
    → Answers p (create_unless_found s p h (reference_found o m))
found-Answers s p h none m n l v d = checked-Answers s p h (records m.hash) m (loaded m v d) l v d
found-Answers s p h (some i) m n l v d = (refl, find_key-same p (records m.hash) i n, n, v, l)

-- GetOrCreateApplicationInfo, of a valid manager with the lock free, never faults. It answers with
-- an error, or with S_OK and the record of the path, which the table then holds. In both cases the
-- lock is free, and the manager is valid: all its records have its hosting model, no path has two
-- of them, and in process there is one record at most.
pub get_or_create_application_info-Answers :
    (s : System) (p : Text) (h : HostingModel) (m : Manager)
    → m.lock ≡ unlocked
    → IsValid m
    → Answers p (get_or_create_application_info s p h m)
unfolding get_or_create_application_info find_info
get_or_create_application_info-Answers s p h m l v =
    if-both (Answers p) (failed (s.key p)) _ _ (λ e. (e, v, l))
      (λ _. elim (Bool-cases m.in_shutdown) [
        | inl d ↦
            let c : find_info p m
                ≡ some ((hresult_from_win32 error_server_shutdown_in_progress, none), m) =
              ground arith in
            rw c (refl, v, l)
        | inr d ↦
            let e = loaded m v d in
            let c : find_info p m ≡ some (reference_found (find_key p (records m.hash)) m) =
              ground arith in
            rw c (found-Answers s p h (find_key p (records m.hash)) m refl l v d)
      ])
