-- ===== src/ServerProcess/Ready.antt =====
-- What PostStartCheck of AspNetCoreModuleV2/RequestHandler/outofprocess/serverprocess.cxx has seen
-- when it marks a server process as ready, and what it leaves when it fails.
use iisintegration.Prelude.{
  ◌≢◌, ℕ, zero, suc, ◌+◌, ◌≡◌, refl, sym, ◌∙◌, arith, Bool, true, false, ◌&&◌, ◌||◌, Option, none,
  some, ltb, if-both,
}
use iisintegration.ProcessManager.{elapsed}
use iisintegration.ServerProcess.{Server, waited_on}
use iisintegration.ServerProcess.Codes.{Code, failed_code}
use iisintegration.ServerProcess.Port.{check_if_server_is_up}
use iisintegration.ServerProcess.Check.{
  CheckAnswers, Waited, ended_early, came_up, gave_up_waiting, Run, no_fuel, out_of_bounds, done,
  await_ready, after_wait, has_ended, post_start_check,
}
use iisintegration.ServerProcess.Jobs.{or_false, is_debugger_is_attached}
use iisintegration.ServerProcess.Watch.{IsFresh, Stays, Checked, after_ready-Checked}

-- Where the wait has seen the server listen, if it has.
abbrev Seen : CheckAnswers → ℕ → Option Waited → Type 0
Seen a port (some (came_up pid d)) =
    (k : ℕ) × ((check_if_server_is_up (a.poll k).probe port).up ≡ true)
    × ((check_if_server_is_up (a.poll k).probe port).pid ≡ pid)
Seen a port _ = Unit

await_ready-Seen :
    (f : ℕ) (a : CheckAnswers) (port limit : ℕ) (d : Bool) (k : ℕ)
    → Seen a port (await_ready f a port limit d k)
unfolding await_ready
await_ready-Seen zero a port limit d k = tt
await_ready-Seen (suc f) a port limit d k =
    let p = a.poll k in
    let check = check_if_server_is_up p.probe port in
    let d' = is_debugger_is_attached a.worker p.job p.present in
    if-both (Seen a port) (has_ended p.exit && has_ended p.exit_again) _ _ (λ _. tt)
      (λ _.
        if-both (Seen a port) check.up _ _ (λ up. (k, up, refl))
          (λ _.
            if-both (Seen a port) (ltb (elapsed p.tick a.start_tick) limit || d') _ _
              (λ _. await_ready-Seen f a port limit d' (k + 1)) (λ _. tt)))

-- What PostStartCheck leaves of the server `s0`.
abbrev pub IsChecked : CheckAnswers → Server → Run (Code × Server) → Type 0
IsChecked a s0 (done (hr, s)) =
    Stays s0 s
    × (failed_code hr ≡ true → (s.ready ≡ false) × (s.connection ≡ none))
    × (failed_code hr ≡ false
        → s.ready ≡ true
        → (s.connection ≡ some s0.port)
          × (s.process_wait ≡ waited_on a.register s0.process)
          × (k : ℕ) × ((check_if_server_is_up (a.poll k).probe s0.port).up ≡ true)
          × (a.nsi ≡ true
              → s.listening_process_id ≡ (check_if_server_is_up (a.poll k).probe s0.port).pid))
    × (failed_code hr ≡ false
        → s.ready ≡ false
        → (check_if_server_is_up a.final_probe s0.port).up ≡ false)
IsChecked a s0 out_of_bounds = s0.children.count ≢ 0
IsChecked a s0 no_fuel = Unit

Checked-Seen :
    (a : CheckAnswers) (s0 : Server) (pid : ℕ) (d : Bool) (r : Run (Code × Server))
    → Seen a s0.port (some (came_up pid d))
    → Checked a pid s0 r
    → IsChecked a s0 r
Checked-Seen a s0 pid d no_fuel seen c = tt
Checked-Seen a s0 pid d out_of_bounds seen c = c
Checked-Seen a s0 pid d (done (hr, s)) (k, up, owner) (port, bad, good, odd) = (
  port,
  bad,
  λ ok ready. let (c, w, l) = good ok ready in (c, w, k, up, λ nsi. l nsi ∙ sym owner),
  odd,
)

after_wait-IsChecked :
    (a : CheckAnswers) (s : Server) (o : Option Waited)
    → IsFresh s
    → Seen a s.port o
    → IsChecked a s (after_wait a s o)
unfolding after_wait
after_wait-IsChecked a s none f seen = tt
after_wait-IsChecked a s (some (ended_early d)) f seen = ground arith
after_wait-IsChecked a s (some (gave_up_waiting d)) f seen = ground arith
after_wait-IsChecked a s (some (came_up pid d)) f seen =
    Checked-Seen a s pid d _ seen (after_ready-Checked a pid s d s f refl)

-- PostStartCheck of a server that is held, not ready and without a connection keeps the server's port and
-- settings, and leaves it held. Where it fails, the server has no
-- connection and is not marked as ready. Where it succeeds and the server is ready, there is a connection
-- to the server's port, the wait is on its process if Windows has accepted the registration and is NULL
-- otherwise, a round of the wait has found a listener on the port, and, if the
-- table of listeners can be read, the owner that was found is the listening process. Where it succeeds and the
-- server is not ready, the last check has found no listener. It stays inside the arrays of the children unless
-- the server has children from before.
pub post_start_check-IsChecked :
    (fuel : ℕ) (a : CheckAnswers) (s : Server)
    → IsFresh s
    → IsChecked a s (post_start_check fuel a s)
unfolding post_start_check
post_start_check-IsChecked fuel a s f =
    after_wait-IsChecked a s _ f
      (await_ready-Seen fuel a s.port s.settings.startup_time_limit (or_false a.first_debugger) 0)
