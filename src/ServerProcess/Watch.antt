-- ===== src/ServerProcess/Watch.antt =====
-- PostStartCheck of AspNetCoreModuleV2/RequestHandler/outofprocess/serverprocess.cxx after its wait: the
-- registrations, the children and the connection.
use iisintegration.Prelude.{
  ◌≢◌, ℕ, ◌≤◌, ◌≡◌, refl, sym, ap, subst, ◌∙◌, arith, Bool, true, false, not, ◌||◌, Option, none,
  some, ◌==◌, if-both, get_or, set,
}
use iisintegration.ServerProcess.{
  Children, Server, Handle, null, is_null, register_process_wait, dereference_server, waited_on,
}
use iisintegration.ServerProcess.Codes.{Code, failure, failed_code, create_failed, out_of_memory}
use iisintegration.ServerProcess.Port.{check_if_server_is_up}
use iisintegration.ServerProcess.Check.{
  CheckAnswers, Run, done, finish_check, set_ready, connect, connect_with, check_child, find_child,
  watch_child, match_found, match_handles, match_child, no_fuel, out_of_bounds, after_ready,
}
use iisintegration.ServerProcess.Jobs.{
  get_child_process_handles, JobAnswer, query_job, job_retries, store_children, store_children,
}
use iisintegration.ServerProcess.Fits.{query_job-fits, store_children-fits}

-- A process that has no connection yet and is held by someone.
abbrev pub IsFresh : Server → Type 0
IsFresh s = (s.ready ≡ false) × (s.connection ≡ none) × (1 ≤ s.references)

-- Port and settings are those of `s0`, and someone holds the server.
abbrev pub Stays : Server → Server → Type 0
Stays s0 s = (s.port ≡ s0.port) × (s.settings ≡ s0.settings) × (1 ≤ s.references)

-- What is known of the server `s` since the start of the check with `s0`.
abbrev Watches : ℕ → Server → Server → Type 0
Watches n s0 s = IsFresh s × Stays s0 s × (s.process_wait ≡ waited_on n s0.process)

-- A failure leaves no connection and no mark. A server that is ready has a connection to the port and, if
-- Windows has accepted it, a wait on its process, and what listens, if the table tells it, is the process `pid`. Where it is not ready
-- without a failure, the last check of a child has not found it. Only children that are there already
-- lead outside the arrays.
abbrev pub Checked : CheckAnswers → ℕ → Server → Run (Code × Server) → Type 0
Checked a pid s0 (done (hr, s)) =
    Stays s0 s
    × (failed_code hr ≡ true → (s.ready ≡ false) × (s.connection ≡ none))
    × (failed_code hr ≡ false
        → s.ready ≡ true
        → (s.connection ≡ some s0.port)
          × (s.process_wait ≡ waited_on a.register s0.process)
          × (a.nsi ≡ true → s.listening_process_id ≡ pid))
    × (failed_code hr ≡ false
        → s.ready ≡ false
        → (check_if_server_is_up a.final_probe s0.port).up ≡ false)
Checked a pid s0 out_of_bounds = s0.children.count ≢ 0
Checked a pid s0 no_fuel = ⊥

-- A registration changes the references and the log alone, while somebody holds the server.
register-Watches :
    (n returned : ℕ) (h : Handle) (s0 s : Server)
    → Watches n s0 s
    → Watches n s0 (register_process_wait returned h s).1
unfolding register_process_wait dereference_server
register-Watches n returned h s0 s w = ground arith

register_listening :
    (returned : ℕ) (h : Handle) (s : Server)
    → 1 ≤ s.references
    → (register_process_wait returned h s).1.listening_process_id ≡ s.listening_process_id
unfolding register_process_wait dereference_server
register_listening returned h s n = ground arith

pub register-IsFresh :
    (returned : ℕ) (h : Handle) (s : Server)
    → IsFresh s
    → let s' = (register_process_wait returned h s).1 in
      IsFresh s' × Stays s s' × (s'.children ≡ s.children)
unfolding register_process_wait dereference_server
register-IsFresh returned h s w = ground arith

-- What holds of the new server, or of the case that there is none.
abbrev HoldsOfServer : Type 0 → (Server → Type 0) → Option (Code × Server) → Type 0
HoldsOfServer Q P none = Q
HoldsOfServer Q P (some (hr, s)) = P s

-- The search for the children changes their arrays alone.
get_child_process_handles-Watches :
    (n worker : ℕ) (job : ℕ → JobAnswer) (open_process : ℕ → Handle) (s0 s : Server)
    → Watches n s0 s
    → s.children ≡ s0.children
    → HoldsOfServer
        (s0.children.count ≢ 0)
        (Watches n s0)
        (get_child_process_handles worker job open_process s)
unfolding get_child_process_handles
get_child_process_handles-Watches n worker job open_process s0 s w same =
    let r = query_job job_retries job 0 in
    let stored = store_children worker s.process_id open_process r.1 s.children in
    let fits = query_job-fits job_retries job 0 in
    let count = ap (λ (c : Children). c.count) same in
    if-both (HoldsOfServer (s0.children.count ≢ 0) (Watches n s0)) (failed_code r.0) _ _ (λ _. w)
      (λ ok.
        elim stored
            as (λ o.
              (stored ≡ o)
              → HoldsOfServer (s0.children.count ≢ 0) (Watches n s0)
                  (elim o as (λ _. Option (Code × Server)) [
                    | none ↦ none
                    | some c ↦ some (r.0, record s { children = c })
                  ])) [
                    | none ↦ λ e zero_count.
                        store_children-fits worker s.process_id open_process r.1 s.children
                          (omega (arith, fits ok, count ∙ zero_count)) e
                    | some c ↦ λ e. w
                  ]
          refl)

register_result :
    (returned : ℕ) (h : Handle) (s : Server)
    → failed_code (register_process_wait returned h s).0.0 ≡ false
    → (register_process_wait returned h s).0.1 ≡ waited_on returned h
unfolding register_process_wait
register_result returned h s ok = ground arith

module _ (a : CheckAnswers) (pid : ℕ) (s0 : Server) where
  finish_check-Checked :
      (hr : Code) (d : Bool) (s : Server)
      → (failed_code hr ≡ false → (check_if_server_is_up a.final_probe s0.port).up ≡ false)
      → s.ready ≡ false
      → Stays s0 s
      → s.connection ≡ none
      → Checked a pid s0 (finish_check hr d s)
  finish_check-Checked hr d s u r p c = ground arith

  finish_failed-Checked :
      (hr : Code) (d : Bool) (s : Server)
      → failed_code hr ≡ true
      → s.ready ≡ false
      → Stays s0 s
      → Checked a pid s0 (finish_check hr d s)
  finish_failed-Checked hr d s f r p = ground arith

  set_ready-Checked :
      (d : Bool) (s : Server)
      → Stays s0 s
      → s.process_wait ≡ waited_on a.register s0.process
      → (a.nsi ≡ true → s.listening_process_id ≡ pid)
      → s.connection ≡ some s0.port
      → Checked a pid s0 (set_ready a d s)
  set_ready-Checked d s p w l c =
      (p, λ f. absurd (ground arith), λ ok r. (c, w, l), λ ok r. absurd (ground arith))

  connect-Checked :
      (d : Bool) (s : Server)
      → Watches a.register s0 s
      → (a.nsi ≡ true → s.listening_process_id ≡ pid)
      → Checked a pid s0 (connect a d s)
  connect-Checked d s ((r, c, n), p, w) l =
      subst (λ o. Checked a pid s0 (connect_with o a d s)) (sym c)
        (if-both (Checked a pid s0) (not a.connection_memory) _ _
          (λ _. finish_failed-Checked (failure out_of_memory) d s refl r p)
          (λ _.
            if-both (Checked a pid s0) (failed_code a.connection_initialized) _ _
              (λ f. finish_failed-Checked _ d (record s { connection = some s.port }) f r p)
              (λ _.
                set_ready-Checked d (record s { connection = some s.port }) p w l
                  (ap (λ n. some n) p.0))))

  check_child-Checked :
      (d : Bool) (s : Server)
      → Watches a.register s0 s
      → (a.nsi ≡ true → s.listening_process_id ≡ pid)
      → Checked a pid s0 (check_child a d s)
  unfolding check_if_server_is_up
  check_child-Checked d s w l =
      let check = check_if_server_is_up a.final_probe s.port in
      if-both (Checked a pid s0) (failed_code check.code || not check.up) _ _
        (λ no.
          finish_check-Checked check.code d s
            (λ ok.
              subst (λ p. (check_if_server_is_up a.final_probe p).up ≡ false) w.1.0 (ground arith))
            w.0.0 w.1 w.0.1)
        (λ _. connect-Checked d s w l)

  -- A registration changes the references and the log alone.
  watch_child-Checked :
      (d : Bool) (i : ℕ) (s : Server)
      → Watches a.register s0 s
      → Checked a pid s0 (watch_child a d pid i s)
  unfolding watch_child
  watch_child-Checked d i s w =
      let s1 = record s { listening_process_id = pid } in
      let h = get_or s.children.handles i null in
      let r = register_process_wait a.register_child h s1 in
      let w1 = register-Watches a.register a.register_child h s0 s1 w in
      let s3 = record r.1 {
        children = record r.1.children { waits = set r.1.children.waits i r.0.1 };
      } in
      if-both (Checked a pid s0) (is_null h) _ _ (λ _. connect-Checked d s1 w (λ n. refl))
        (λ _.
          if-both (Checked a pid s0) (failed_code r.0.0) _ _
            (λ no. finish_failed-Checked r.0.0 _ s3 no w1.0.0 w1.1)
            (λ _.
              check_child-Checked _ s3 w1 (λ n. register_listening a.register_child h s1 w.0.2)))

  match_found-Checked :
      (d : Bool) (s : Server) (o : Option ℕ)
      → Watches a.register s0 s
      → Checked a pid s0 (match_found a d pid s o)
  unfolding match_found
  match_found-Checked d s none w = finish_failed-Checked (failure create_failed) d s refl w.0.0 w.1
  match_found-Checked d s (some i) w = watch_child-Checked d i s w

  match_handles-Checked :
      (d : Bool) (o : Option (Code × Server))
      → HoldsOfServer (s0.children.count ≢ 0) (Watches a.register s0) o
      → Checked a pid s0 (match_handles a d pid o)
  unfolding match_handles
  match_handles-Checked d none w = w
  match_handles-Checked d (some (hr, s)) w =
      if-both (Checked a pid s0) (failed_code hr) _ _
        (λ no. finish_failed-Checked hr d s no w.0.0 w.1)
        (λ _. match_found-Checked d s (find_child s.children.count 0 pid s.children.ids) w)

  pub after_ready-Checked :
      (d : Bool) (s : Server) → IsFresh s → s ≡ s0 → Checked a pid s0 (after_ready a d pid s)
  unfolding after_ready match_child match_handles
  after_ready-Checked d s f e =
      let r = register_process_wait a.register s.process s in
      let s2 = record r.1 { process_wait = r.0.1 } in
      let (fresh, stays, children) = register-IsFresh a.register s.process s f in
      let port' = subst (λ t. Stays t s2) e stays in
      let P = Checked a pid s0 in
      if-both P (failed_code r.0.0) _ _ (λ no. finish_failed-Checked r.0.0 d s2 no fresh.0 port')
        (λ ok.
          let w : Watches a.register s0 s2 = (
            fresh,
            port',
            register_result a.register s.process s ok
                ∙ ap (λ (t : Server). waited_on a.register t.process) e,
          ) in
          if-both P (not a.nsi) _ _ (λ n. connect-Checked _ s2 w (λ y. absurd (ground arith)))
            (λ _.
              if-both P (pid == s2.process_id) _ _
                (λ same.
                  connect-Checked _ (record s2 { listening_process_id = s2.process_id }) w
                    (λ y. ground arith))
                (λ _. match_handles-Checked _ _ (
                  get_child_process_handles-Watches a.register a.worker a.child_job a.open_child s0
                    s2 w (children ∙ ap (λ (t : Server). t.children) e)))))
