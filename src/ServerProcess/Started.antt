-- ===== src/ServerProcess/Started.antt =====
-- How StartProcess of AspNetCoreModuleV2/RequestHandler/outofprocess/serverprocess.cxx ends, with its
-- attempts and what they leave.
use iisintegration.Prelude.{
  ℕ, zero, suc, ◌+◌, ◌<◌, ◌≡◌, ◌≢◌, ◌⊎◌, inl, inr, refl, sym, ap, subst, ◌∙◌, Bool-cases,
  if◌then◌else◌, arith, true, false, not, ◌||◌, List, [], ◌∷◌, none, if-both, All,
}
use iisintegration.ServerProcess.{
  new_server, Server, Children, Settings, Handle, null, clean_up, all_null, close_stdout, call,
  cancel_timer,
}
use iisintegration.ServerProcess.Codes.{Code, success, failed_code}
use iisintegration.ServerProcess.Environment.{Table}
use iisintegration.ServerProcess.Watch.{IsFresh}
use iisintegration.ServerProcess.Check.{Run, no_fuel, out_of_bounds, done}
use iisintegration.ServerProcess.Stages.{HasDraw, IsPatient, IsServing, IsLost, Ends}
use iisintegration.ServerProcess.Attempt.{IsReached, IsBlind, attempt-Ends}
use iisintegration.ServerProcess.Launch.{
  Attempt, Stage, stuck, faulted, gave_up, reached, attempt, give_up_attempt, run_attempts,
  after_attempt, retry_count, finish_start, start_server,
}
use iisintegration.ServerProcess.Command.{
  initialize_server, JobAnswers, setup_job_object, StdAnswers, setup_std_handles,
}
use iisintegration.ServerProcess.Waiting.{post_start_check-ends}

-- Nothing is left of a process: no handle, no wait, no connection.
abbrev pub IsClean : Server → Type 0
IsClean s =
    (s.process ≡ null)
    × (s.listening_process ≡ null)
    × (s.job ≡ null)
    × (s.process_wait ≡ null)
    × (s.connection ≡ none)
    × All (λ h. h ≡ null) s.children.handles
    × All (λ h. h ≡ null) s.children.waits

all_null-All : (hs : List Handle) → All (λ h. h ≡ null) (all_null hs)
all_null-All [] = tt
all_null-All (h ∷ hs) = (refl, all_null-All hs)

give_up_attempt-IsClean :
    (s : Server)
    → let s' = give_up_attempt s in
      IsClean s'
      × (s'.ready ≡ s.ready)
      × (s'.references ≡ s.references)
      × (s'.settings ≡ s.settings)
      × (s'.children.count ≡ s.children.count)
unfolding give_up_attempt clean_up
give_up_attempt-IsClean s =
    ground (arith, all_null-All s.children.handles, all_null-All s.children.waits)

-- Children are left from before the start, or the first of two attempts has looked for some.
abbrev pub HasChildren : (ℕ → Attempt) → ℕ → Type 0
HasChildren a count = (count ≢ 0) ⊎ ((k : ℕ) × (suc k < retry_count) × ((a k).check.nsi ≡ true))

retry-HasChildren :
    (a : ℕ → Attempt) (count k : ℕ) (s t : Server)
    → (s.children.count ≢ 0 → HasChildren a count)
    → (IsBlind (a k) → t.children ≡ s.children)
    → suc k < retry_count
    → t.children.count ≢ 0
    → HasChildren a count
retry-HasChildren a count k s t before same h n = elim (Bool-cases (a k).check.nsi) [
  | inl read ↦ inr (k, h, read)
  | inr blind ↦ before (λ z. n (ap (λ (c : Children). c.count) (same blind) ∙ z))
]

module _ (lower : ℕ → ℕ) (a : ℕ → Attempt) (configured : Table) (g : Settings) (count : ℕ) where
  -- How the attempts end. The time limit of some check never passes, or the result is one of an attempt.
  abbrev Outcome : Run (Code × Server) → Type 0
  Outcome no_fuel = ¬ ((k : ℕ) → IsPatient g.startup_time_limit (a k).fuel (a k).check)
  Outcome out_of_bounds = HasChildren a count
  Outcome (done (hr, s)) =
      (failed_code hr ≡ true → (s.ready ≡ false) × IsClean s)
      × (failed_code hr ≡ false → s.ready ≡ true → (k : ℕ) × (k < retry_count) × IsServing (a k) s)
      × (failed_code hr ≡ false → s.ready ≡ false → (k : ℕ) × (k < retry_count) × IsLost (a k) s)

  after_attempt-Outcome :
      (k : ℕ) (s : Server) (st : Stage (Code × Server))
      (retry : Code → Server → Run (Code × Server))
      → k < retry_count
      → s.settings ≡ g
      → (s.children.count ≢ 0 → HasChildren a count)
      → Ends
          (¬ IsPatient g.startup_time_limit (a k).fuel (a k).check)
          (IsBlind (a k))
          s
          (IsReached (a k))
          st
      → ((hr : Code) (t : Server)
          → failed_code hr ≡ true
          → IsFresh t
          → IsClean t
          → t.settings ≡ g
          → (suc k < retry_count → t.children.count ≢ 0 → HasChildren a count)
          → Outcome (retry hr t))
      → Outcome (after_attempt st retry)
  unfolding after_attempt
  after_attempt-Outcome k s stuck retry h e before ends again = λ patient. ends (patient k)
  after_attempt-Outcome k s faulted retry h e before ends again = before ends
  after_attempt-Outcome k s (reached (hr, t)) retry h e before (ok, serving, lost) again =
      (λ f. absurd (ground arith), λ _ ready. (k, h, serving ready), λ _ off. (k, h, lost off))
  after_attempt-Outcome k s (gave_up hr critical t) retry h e before (f, r, c, g', n, crit, same)
        again =
      let (clean, ready, refs, settings, children) = give_up_attempt-IsClean t in
      if-both Outcome critical _ _
        (λ _. (λ _. (ready ∙ r, clean), λ ok. absurd (ground arith), λ ok. absurd (ground arith)))
        (λ _.
          again hr (give_up_attempt t) f (ready ∙ r, clean.4, rw refs n) clean (settings ∙ g' ∙ e)
            (λ h2 n2. retry-HasChildren a count k s t before same h2 (λ z. n2 (children ∙ z))))

  attempt-Outcome :
      (k : ℕ) (s : Server)
      → HasDraw (a k)
      → IsFresh s
      → s.settings ≡ g
      → Ends
          (¬ IsPatient g.startup_time_limit (a k).fuel (a k).check)
          (IsBlind (a k))
          s
          (IsReached (a k))
          (attempt lower (a k) configured s)
  attempt-Outcome k s draw fresh e =
      attempt-Ends _ s fresh (a k)
        (λ t f same stopped patient.
          (post_start_check-ends (a k).fuel (a k).check t f (
              subst (λ (q : Settings). IsPatient q.startup_time_limit (a k).fuel (a k).check)
                (sym (same ∙ e)) patient)).0
            stopped)
        lower configured draw

  run_attempts-Outcome :
      (left k : ℕ) (hr : Code) (s : Server)
      → k + left ≡ retry_count
      → ((k : ℕ) → HasDraw (a k))
      → IsFresh s
      → s.settings ≡ g
      → (k < retry_count → s.children.count ≢ 0 → HasChildren a count)
      → (left ≡ 0 → (failed_code hr ≡ true) × IsClean s)
      → Outcome (run_attempts left lower a configured k hr s)
  unfolding run_attempts
  run_attempts-Outcome zero k hr s h draw fresh e before last =
      let (f, clean) = last refl in
      (λ _. (fresh.0, clean), λ ok. absurd (ground arith), λ ok. absurd (ground arith))
  run_attempts-Outcome (suc left) k hr s h draw fresh e before last =
      after_attempt-Outcome k s (attempt lower (a k) configured s)
        (run_attempts left lower a configured (k + 1)) (omega arith) e (before (omega arith))
        (attempt-Outcome k s (draw k) fresh e)
        (λ hr' t f fresh' clean e' next.
          run_attempts-Outcome left (k + 1) hr' t (omega arith) draw fresh' e'
            (λ h2. next (omega arith)) (λ z. (f, clean)))

setup_std_handles-IsFresh :
    (std : StdAnswers) (s : Server)
    → IsFresh s
    → IsFresh (setup_std_handles std s).1
      × ((setup_std_handles std s).1.settings ≡ s.settings)
      × ((setup_std_handles std s).1.children ≡ s.children)
unfolding setup_std_handles
setup_std_handles-IsFresh std s f = ground arith

-- A server is ready for its start after the constructor and `Initialize`.
initialize_server-IsFresh :
    (copies : List Code) (left : Settings) (job : JobAnswers) (g : Settings) (memory : Server)
    → IsFresh (initialize_server copies left job g (new_server memory)).1
unfolding initialize_server setup_job_object new_server
initialize_server-IsFresh copies left job g memory = ground arith

-- What StartProcess leaves.
abbrev pub IsStarted : (ℕ → Attempt) → Server → Run (Code × Server) → Type 0
IsStarted a s0 no_fuel =
    ¬ ((k : ℕ) → IsPatient s0.settings.startup_time_limit (a k).fuel (a k).check)
IsStarted a s0 out_of_bounds = HasChildren a s0.children.count
IsStarted a s0 (done (hr, s)) =
    (failed_code hr ≡ true → (s.ready ≡ false) × (s.stdout ≡ null) × IsClean s)
    × (failed_code hr ≡ false → s.ready ≡ true → (k : ℕ) × (k < retry_count) × IsServing (a k) s)
    × (failed_code hr ≡ false → s.ready ≡ false → (k : ℕ) × (k < retry_count) × IsLost (a k) s)

still_off :
    (s : Server)
    → (if s.settings.stdout_log_enabled
        then (call cancel_timer (close_stdout s))
        else close_stdout s).ready
      ≡ false
    → s.ready ≡ false
still_off s e = ground arith

finish_start-IsStarted :
    (lower : ℕ → ℕ) (a : ℕ → Attempt) (configured : Table) (s0 : Server) (r : Run (Code × Server))
    → Outcome lower a configured s0.settings s0.children.count r
    → IsStarted a s0 (finish_start r)
finish_start-IsStarted lower a configured s0 no_fuel h = h
finish_start-IsStarted lower a configured s0 out_of_bounds h = h
finish_start-IsStarted lower a configured s0 (done (hr, s)) (bad, good, odd) =
    if-both (λ (t : Server). IsStarted a s0 (done (hr, t))) (failed_code hr || not s.ready) _ _
      (λ over. (
        λ f.
            let (r, clean) = bad f in
            if-both (λ (t : Server). (t.ready ≡ false) × (t.stdout ≡ null) × IsClean t)
              s.settings.stdout_log_enabled (call cancel_timer (close_stdout s)) (close_stdout s)
              (λ _. (r, refl, clean)) (λ _. (r, refl, clean)),
        λ ok ready. absurd (
            if-both (λ (t : Server). t.ready ≡ true → ⊥) s.settings.stdout_log_enabled
              (call cancel_timer (close_stdout s)) (close_stdout s) (λ _ r. ground arith)
              (λ _ r. ground arith) ready),
        λ ok off.
            let (k, h, lost) = odd ok (still_off s off) in
            (
              k,
              h,
              if-both (λ (t : Server). IsLost (a k) t) s.settings.stdout_log_enabled _ _ (λ _. lost)
                  (λ _. lost),
            ),
      ))
      (λ running. (λ f. absurd (ground arith), good, odd))

-- StartProcess of a server that is held, not ready and without a connection, with a draw of the port in
-- each attempt. Where it fails, the server is not ready, and no handle of a process, no wait, no log and no
-- connection is left. Where it succeeds and the server is ready, one of at most two attempts has brought it
-- up: the port is between MIN_PORT and MAX_PORT, the connection is to that port, the wait is on the process
-- that the attempt created, or NULL if Windows has refused the registration, a check has found a listener on the port, and, if the table of
-- listeners can be read, the owner found is the listening process. Where it succeeds and the server is not
-- ready, the port is in that range too, and the last check of one of the attempts has found no listener on it.
-- It leaves the arrays of the children only if the server has children from before, or the first attempt could
-- read the table of listeners. The fuel runs out only if in some attempt the
-- time limit does not pass within it while no debugger is attached.
pub start_server-IsStarted :
    (lower : ℕ → ℕ) (std : StdAnswers) (a : ℕ → Attempt) (configured : Table) (s : Server)
    → ((k : ℕ) → HasDraw (a k))
    → IsFresh s
    → IsStarted a s (start_server lower std a configured s)
unfolding start_server
start_server-IsStarted lower std a configured s draw f =
    let s1 = (setup_std_handles std s).1 in
    let (fresh, same, children) = setup_std_handles-IsFresh std s f in
    finish_start-IsStarted lower a configured s _ (
      run_attempts-Outcome lower a configured s.settings s.children.count 2 0 success s1 refl draw
        fresh same (λ h n. inl (λ z. n (ap (λ (c : Children). c.count) children ∙ z)))
        (λ z. absurd (ground arith)))
