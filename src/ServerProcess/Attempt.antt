-- ===== src/ServerProcess/Attempt.antt =====
-- One attempt of StartProcess of AspNetCoreModuleV2/RequestHandler/outofprocess/serverprocess.cxx, from
-- the creation of the process to its last check.
use iisintegration.Prelude.{
  ℕ, ◌≤◌, ◌≡◌, refl, sym, ap, subst, ◌∙◌, arith, true, false, List, some, if-both,
}
use iisintegration.ServerProcess.{Text, Server, Handle, Children, waited_on}
use iisintegration.ServerProcess.Codes.{Code, failed_code}
use iisintegration.ServerProcess.Environment.{Table}
use iisintegration.ServerProcess.Port.{min_port, max_port, check_if_server_is_up}
use iisintegration.ServerProcess.Watch.{IsFresh}
use iisintegration.ServerProcess.Check.{Run, no_fuel, out_of_bounds, done, post_start_check}
use iisintegration.ServerProcess.Kept.{KeepsChildren, post_start_check-KeepsChildren}
use iisintegration.ServerProcess.Ready.{IsChecked, post_start_check-IsChecked}
use iisintegration.ServerProcess.Launch.{
  Attempt, created, not_created, ◌>>=◌, need_created, assigned_code, need_checked, after_created,
  prepare_environment, create_backend, attempt,
}
use iisintegration.ServerProcess.Command.{code_of, setup_job_object, setup_command_line}
use iisintegration.ServerProcess.Stages.{
  Keeps, Keeps-trans, HasPort, HasDraw, IsServing, IsLost, Ends, >>=-Ends, need_kept,
  setup_job_object-Keeps, prepare_environment-Ends,
}

-- An attempt that reaches its end.
abbrev pub IsReached : Attempt → Code × Server → Type 0
IsReached a (hr, s) =
    (failed_code hr ≡ false) × (s.ready ≡ true → IsServing a s) × (s.ready ≡ false → IsLost a s)

-- No attempt looks for children where the table of listeners cannot be read.
abbrev pub IsBlind : Attempt → Type 0
IsBlind a = a.check.nsi ≡ false

-- Where the last check runs out of fuel, `S` holds.
module _ (S : Type 0) (s0 : Server) (fresh : IsFresh s0) (a : Attempt)
    (runs_out : (s : Server)
      → IsFresh s
      → s.settings ≡ s0.settings
      → post_start_check a.fuel a.check s ≡ no_fuel
      → S) where
  need_checked-Ends :
      (h : Handle) (pid : ℕ) (s : Server) (r : Run (Code × Server))
      → a.create ≡ created h pid
      → s.process ≡ h
      → HasPort s0 s
      → (r ≡ no_fuel → S)
      → IsChecked a.check s r
      → (IsBlind a → KeepsChildren s r)
      → Ends S (IsBlind a) s0 (IsReached a) (need_checked r)
  need_checked-Ends h pid s no_fuel made own held out c kept = out refl
  need_checked-Ends h pid s out_of_bounds made own held out c kept =
      λ zero_count. c (ap (λ (t : Children). t.count) held.0.3 ∙ zero_count)
  need_checked-Ends h pid s (done (hr, s')) made own (keeps, low, high) out (stays, bad, good, odd)
        kept =
      if-both (Ends S (IsBlind a) s0 (IsReached a)) (failed_code hr) _ _
        (λ f. (
          f,
          (bad f).0,
          (bad f).1,
          stays.1 ∙ keeps.4,
          stays.2,
          λ x. absurd (ground arith),
          λ n. kept n ∙ keeps.3,
        ))
        (λ ok. (
          ok,
          λ ready.
              let (c, w, k, up, owner) = good ok ready in
              subst
                (λ n.
                  (min_port ≤ n)
                  × (n ≤ max_port)
                  × (s'.connection ≡ some n)
                  × ((h : Handle) × (pid : ℕ) × (a.create ≡ created h pid)
                      × (s'.process_wait ≡ waited_on a.check.register h))
                  × (k : ℕ) × ((check_if_server_is_up (a.check.poll k).probe n).up ≡ true)
                  × (a.check.nsi ≡ true
                      → s'.listening_process_id
                        ≡ (check_if_server_is_up (a.check.poll k).probe n).pid))
                (sym stays.0)
                (
                  low,
                  high,
                  c,
                  (h, pid, made, w ∙ ap (λ p. waited_on a.check.register p) own),
                  k,
                  up,
                  owner,
                ),
          λ off.
              subst
                (λ n.
                  (min_port ≤ n)
                  × (n ≤ max_port)
                  × ((check_if_server_is_up a.check.final_probe n).up ≡ false))
                (sym stays.0) (low, high, odd ok off),
        ))

  checked-Ends :
      (h : Handle) (pid : ℕ) (s : Server)
      → a.create ≡ created h pid
      → s.process ≡ h
      → HasPort s0 s
      → Ends S (IsBlind a) s0 (IsReached a) (need_checked (post_start_check a.fuel a.check s))
  checked-Ends h pid s made own held =
      let (r, c, n, ch, g) = held.0 in
      let f : IsFresh s = (r ∙ fresh.0, c ∙ fresh.1, rw n fresh.2) in
      need_checked-Ends h pid s _ made own held (runs_out s f g)
        (post_start_check-IsChecked a.fuel a.check s f)
        (λ n. post_start_check-KeepsChildren a.fuel a.check s f n)

  created-Ends :
      (h : Handle) (pid : ℕ) (s : Server)
      → a.create ≡ created h pid
      → HasPort s0 s
      → Ends S
          (IsBlind a)
          s0
          (IsReached a)
          (after_created a (record s { process = h; process_id = pid }))
  unfolding after_created
  created-Ends h pid s made (keeps, low, high) =
      let s1 : Server = record s { process = h; process_id = pid } in
      let r = setup_job_object a.job s1 in
      let (k1, port, process) = setup_job_object-Keeps a.job s1 in
      let keeps' = Keeps-trans s0 s1 r.1 keeps k1 in
      need_kept S (IsBlind a) s0 fresh (IsReached a) r.0 r.1 _ keeps' (λ _.
        need_kept S (IsBlind a) s0 fresh (IsReached a) (assigned_code a.assign r.1.job) r.1 _ keeps'
          (λ _.
            need_kept S (IsBlind a) s0 fresh (IsReached a) (code_of a.resume) r.1 _ keeps'
              (λ _. checked-Ends h pid r.1 made process (keeps', rw port low, rw port high))))

  create_backend-Ends :
      (s : Server) → HasPort s0 s → Ends S (IsBlind a) s0 (IsReached a) (create_backend a s)
  unfolding create_backend
  create_backend-Ends s (keeps, low, high) =
      elim a.create
          as (λ c.
            (a.create ≡ c)
            → Ends S (IsBlind a) s0 (IsReached a) (need_created c s >>= after_created a)) [
              | not_created e ↦ λ made. (
                refl,
                keeps.0 ∙ fresh.0,
                keeps.1 ∙ fresh.1,
                keeps.4,
                rw keeps.2 fresh.2,
                λ x. absurd (ground arith),
                λ _. keeps.3,
              )
              | created h pid ↦ λ made. created-Ends h pid s made (keeps, low, high)
            ]
        refl

  pub attempt-Ends :
      (lower : ℕ → ℕ) (configured : Table)
      → HasDraw a
      → Ends S (IsBlind a) s0 (IsReached a) (attempt lower a configured s0)
  unfolding attempt
  attempt-Ends lower configured draw =
      let r = setup_command_line a.command s0.settings s0.command_line in
      let s1 : Server = record s0 { port = 0; command_line = r.1 } in
      let keeps : Keeps s0 s1 = (refl, refl, refl, refl, refl) in
      need_kept S (IsBlind a) s0 fresh (IsReached a) r.0 s1 _ keeps (λ _.
        >>=-Ends S (IsBlind a) s0 (λ (x : List Text × Server). HasPort s0 x.1) (IsReached a)
          (prepare_environment lower a configured s1) _
          (prepare_environment-Ends S (IsBlind a) s0 fresh lower a configured s1 draw keeps)
          (λ x held. create_backend-Ends x.1 held))
