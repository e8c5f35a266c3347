-- ===== src/ServerProcess/Stages.antt =====
-- One attempt of StartProcess of AspNetCoreModuleV2/RequestHandler/outofprocess/serverprocess.cxx: how
-- each of its stages ends.
use iisintegration.Prelude.{
  ℕ, suc, ◌<◌, ◌≤◌, ◌≡◌, ◌≢◌, ◌⊎◌, refl, sym, ap, subst, ◌∙◌, arith, Bool, true, false, List, none,
  some, if-both,
}
use iisintegration.ProcessManager.{elapsed}
use iisintegration.ServerProcess.{Text, Server, Handle, waited_on}
use iisintegration.ServerProcess.Codes.{
  Code, success, failure, invalid_argument, rpc_status, failed_code,
}
use iisintegration.ServerProcess.Environment.{
  Table, TokenAnswers, setup_app_token, setup_app_path, output_environment_variables,
}
use iisintegration.ServerProcess.Variables.{init_environment_variables_table, add_websocket_enabled}
use iisintegration.ServerProcess.Port.{
  min_port, max_port, PortResult, check_if_server_is_up, setup_listen_port,
}
use iisintegration.ServerProcess.Listen.{setup_listen_port-IsListening, IsListening}
use iisintegration.ServerProcess.Watch.{IsFresh}
use iisintegration.ServerProcess.Check.{CheckAnswers}
use iisintegration.ServerProcess.Jobs.{is_debugger_is_attached}
use iisintegration.ServerProcess.Launch.{
  Attempt, created, Stage, stuck, faulted, gave_up, reached, ◌>>=◌, ◌>>◌, need, need_port,
  after_port, prepare_environment,
}
use iisintegration.ServerProcess.Command.{setup_job_object, JobAnswers}

-- The draws of the port have fuel.
abbrev pub HasDraw : Attempt → Type 0
HasDraw a = (f : ℕ) × (a.listen.fuel ≡ suc f)

-- Within the fuel, there is a round at which the time limit is over and no debugger is attached.
abbrev pub IsPatient : ℕ → ℕ → CheckAnswers → Type 0
IsPatient limit fuel a =
    (n : ℕ) × (n < fuel)
    × (limit ≤ elapsed (a.poll n).tick a.start_tick)
    × (is_debugger_is_attached a.worker (a.poll n).job (a.poll n).present ≡ false)

-- What the stages before the last check leave alone.
abbrev pub Keeps : Server → Server → Type 0
Keeps s0 s =
    (s.ready ≡ s0.ready)
    × (s.connection ≡ s0.connection)
    × (s.references ≡ s0.references)
    × (s.children ≡ s0.children)
    × (s.settings ≡ s0.settings)

-- How an attempt fails. An error is critical only for a port out of the range. Where `N` holds, the children
-- stay.
abbrev pub IsGivenUp : Type 0 → Server → Code → Bool → Server → Type 0
IsGivenUp N s0 hr critical s =
    (failed_code hr ≡ true)
    × (s.ready ≡ false)
    × (s.connection ≡ none)
    × (s.settings ≡ s0.settings)
    × (1 ≤ s.references)
    × (critical ≡ true
        → (hr ≡ failure invalid_argument) × ((s.port < min_port) ⊎ (max_port < s.port)))
    × (N → s.children ≡ s0.children)

-- What is known of a server that an attempt has left not ready without a failure.
abbrev pub IsLost : Attempt → Server → Type 0
IsLost a s =
    (min_port ≤ s.port)
    × (s.port ≤ max_port)
    × ((check_if_server_is_up a.check.final_probe s.port).up ≡ false)

-- What is known of a server that an attempt has made ready.
abbrev pub IsServing : Attempt → Server → Type 0
IsServing a s =
    (min_port ≤ s.port)
    × (s.port ≤ max_port)
    × (s.connection ≡ some s.port)
    × ((h : Handle) × (pid : ℕ) × (a.create ≡ created h pid)
        × (s.process_wait ≡ waited_on a.check.register h))
    × (k : ℕ) × ((check_if_server_is_up (a.check.poll k).probe s.port).up ≡ true)
    × (a.check.nsi ≡ true
        → s.listening_process_id ≡ (check_if_server_is_up (a.check.poll k).probe s.port).pid)

abbrev pub Ends : {A : Type 0} → Type 0 → Type 0 → Server → (A → Type 0) → Stage A → Type 0
Ends S N s0 R stuck = S
Ends S N s0 R faulted = s0.children.count ≢ 0
Ends S N s0 R (gave_up hr critical s) = IsGivenUp N s0 hr critical s
Ends S N s0 R (reached x) = R x

module _ {A B : Type 0} (S N : Type 0) (s0 : Server) (Q : A → Type 0) (R : B → Type 0) where
  pub >>=-Ends :
      (m : Stage A) (k : A → Stage B)
      → Ends S N s0 Q m
      → ((x : A) → Q x → Ends S N s0 R (k x))
      → Ends S N s0 R (m >>= k)
  >>=-Ends stuck k h f = h
  >>=-Ends faulted k h f = h
  >>=-Ends (gave_up hr c s) k h f = h
  >>=-Ends (reached x) k h f = f x h

module _ {B : Type 0} (S N : Type 0) (s0 : Server) (R : B → Type 0) where
  need-Ends :
      (hr : Code) (s : Server) (k : Stage B)
      → s.ready ≡ false
      → s.connection ≡ none
      → s.settings ≡ s0.settings
      → 1 ≤ s.references
      → s.children ≡ s0.children
      → (failed_code hr ≡ false → Ends S N s0 R k)
      → Ends S N s0 R (need hr s >> k)
  need-Ends (failure r) s k ready c g n e h =
      (refl, ready, c, g, n, λ x. absurd (ground arith), λ _. e)
  need-Ends success s k ready c g n e h = h refl
  need-Ends (rpc_status r) s k ready c g n e h = h refl

pub Keeps-trans : (s0 s1 s2 : Server) → Keeps s0 s1 → Keeps s1 s2 → Keeps s0 s2
Keeps-trans s0 s1 s2 (a, b, c, d, e) (a', b', c', d', e') = (a' ∙ a, b' ∙ b, c' ∙ c, d' ∙ d, e' ∙ e)

setup_app_token-Keeps :
    (lower : ℕ → ℕ) (a : TokenAnswers) (t : Table) (s : Server)
    → let s' = (setup_app_token lower a t s).1.1 in Keeps s s' × (s'.port ≡ s.port)
unfolding setup_app_token
setup_app_token-Keeps lower a t s = ground arith

pub setup_job_object-Keeps :
    (a : JobAnswers) (s : Server)
    → let s' = (setup_job_object a s).1 in
      Keeps s s' × (s'.port ≡ s.port) × (s'.process ≡ s.process)
unfolding setup_job_object
setup_job_object-Keeps a s = ground arith

abbrev pub HasPort : Server → Server → Type 0
HasPort s0 s = Keeps s0 s × (min_port ≤ s.port) × (s.port ≤ max_port)

module _ (S N : Type 0) (s0 : Server) (fresh : IsFresh s0) where
  pub need_kept :
      {B : Type 0} (R : B → Type 0) (hr : Code) (s : Server) (k : Stage B)
      → Keeps s0 s
      → (failed_code hr ≡ false → Ends S N s0 R k)
      → Ends S N s0 R (need hr s >> k)
  need_kept R hr s k keeps h =
      need-Ends S N s0 R hr s k (keeps.0 ∙ fresh.0) (keeps.1 ∙ fresh.1) keeps.4 (rw keeps.2 fresh.2)
        keeps.3 h

  need_port-Ends :
      (lower : ℕ → ℕ) (s : Server) (r : PortResult)
      → Keeps s0 s
      → IsListening lower s r
      → Ends S N s0 (λ (x : Table × Server). HasPort s0 x.1) (need_port (some r))
  need_port-Ends lower s ((hr, critical), (t', s')) (r, c, n, ch, g) (frame, crit, ok) =
      let r' = ap (λ (x : Server). x.ready) frame ∙ r in
      let c' = ap (λ (x : Server). x.connection) frame ∙ c in
      let n' = ap (λ (x : Server). x.references) frame ∙ n in
      let g' = ap (λ (x : Server). x.settings) frame ∙ g in
      if-both (Ends S N s0 (λ (x : Table × Server). HasPort s0 x.1)) (failed_code hr) _ _
        (λ f. (
          f,
          r' ∙ fresh.0,
          c' ∙ fresh.1,
          g',
          rw n' fresh.2,
          crit,
          λ _. ap (λ (x : Server). x.children) frame ∙ ch,
        ))
        (λ f.
          let within = ok f in
          (
            (
              r',
              c',
              ap (λ (x : Server). x.references) frame ∙ n,
              ap (λ (x : Server). x.children) frame ∙ ch,
              ap (λ (x : Server). x.settings) frame ∙ g,
            ),
            within.0,
            within.1,
          ))

  listen-Ends :
      (lower : ℕ → ℕ) (a : Attempt) (t : Table) (s : Server)
      → HasDraw a
      → Keeps s0 s
      → Ends S N s0
          (λ (x : Table × Server). HasPort s0 x.1)
          (need_port (setup_listen_port a.listen lower t s))
  listen-Ends lower a t s (f, e) keeps =
      let (r, eq, l) = setup_listen_port-IsListening a.listen f lower t s e in
      subst (λ o. Ends S N s0 (λ (x : Table × Server). HasPort s0 x.1) (need_port o)) (sym eq)
        (need_port-Ends lower s r keeps l)

  after_port-Ends :
      (lower : ℕ → ℕ) (a : Attempt) (x : Table × Server)
      → HasPort s0 x.1
      → Ends S N s0 (λ (y : List Text × Server). HasPort s0 y.1) (after_port lower a x)
  unfolding after_port
  after_port-Ends lower a (t3, s3) (keeps, low, high) =
      let R = λ (y : List Text × Server). HasPort s0 y.1 in
      let (hr4, t4) = setup_app_path lower a.path s3.settings.app_virtual_path t3 in
      let r = setup_app_token lower a.token t4 s3 in
      let (keeps5, port5) = setup_app_token-Keeps lower a.token t4 s3 in
      let keeps' = Keeps-trans s0 s3 r.1.1 keeps keeps5 in
      need_kept R hr4 s3 _ keeps (λ _. need_kept R r.0 r.1.1 _ keeps' (λ _.
        need_kept R (output_environment_variables lower a.output a.environment r.1.0).0 r.1.1 _
          keeps' (λ _. (keeps', rw port5 low, rw port5 high))))

  pub prepare_environment-Ends :
      (lower : ℕ → ℕ) (a : Attempt) (configured : Table) (s : Server)
      → HasDraw a
      → Keeps s0 s
      → Ends S N s0
          (λ (x : List Text × Server). HasPort s0 x.1)
          (prepare_environment lower a configured s)
  unfolding prepare_environment
  prepare_environment-Ends lower a configured s draw keeps =
      let R = λ (x : List Text × Server). HasPort s0 x.1 in
      let (hr1, t1) = init_environment_variables_table lower a.init s.settings configured in
      let (hr2, t2) = add_websocket_enabled lower a.websocket s.settings.websockets_enabled t1 in
      need_kept R hr1 s _ keeps (λ _. need_kept R hr2 s _ keeps (λ _.
        >>=-Ends S N s0 (λ (x : Table × Server). HasPort s0 x.1) R
          (need_port (setup_listen_port a.listen lower t2 s)) _
          (listen-Ends lower a t2 s draw keeps) (λ x held. after_port-Ends lower a x held)))
