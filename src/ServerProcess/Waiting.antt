-- ===== src/ServerProcess/Waiting.antt =====
-- The wait of PostStartCheck of AspNetCoreModuleV2/RequestHandler/outofprocess/serverprocess.cxx ends.
use iisintegration.Prelude.{
  ℕ, zero, suc, ◌+◌, ◌≤◌, ◌<◌, ◌≡◌, ◌≢◌, refl, ap, subst, arith, Bool-cases, inl, inr, Bool, false,
  ◌&&◌, ◌||◌, Option, none, some, if-both, ltb,
}
use iisintegration.ProcessManager.{elapsed}
use iisintegration.ServerProcess.{Server}
use iisintegration.ServerProcess.Watch.{IsFresh, Checked, after_ready-Checked}
use iisintegration.ServerProcess.Check.{
  CheckAnswers, Waited, ended_early, came_up, gave_up_waiting, no_fuel, await_ready, after_wait,
  has_ended, post_start_check,
}
use iisintegration.ServerProcess.Jobs.{or_false, is_debugger_is_attached}
use iisintegration.ServerProcess.Port.{check_if_server_is_up}
use iisintegration.ServerProcess.Stages.{IsPatient}

await_ready-ends :
    (n f : ℕ) (a : CheckAnswers) (port limit : ℕ) (d : Bool) (k : ℕ)
    → n < f
    → limit ≤ elapsed (a.poll (k + n)).tick a.start_tick
    → is_debugger_is_attached a.worker (a.poll (k + n)).job (a.poll (k + n)).present ≡ false
    → await_ready f a port limit d k ≢ none
unfolding await_ready
await_ready-ends n zero a port limit d k h late alone = absurd (ground arith)
await_ready-ends zero (suc f) a port limit d k h late alone =
    let p = a.poll k in
    let check = check_if_server_is_up p.probe port in
    let same : (k + 0) ≡ k = omega arith in
    let P = λ (o : Option Waited). o ≢ none in
    let d' = is_debugger_is_attached a.worker p.job p.present in
    let alone' : d' ≡ false =
      subst (λ m. is_debugger_is_attached a.worker (a.poll m).job (a.poll m).present ≡ false) same
        alone in
    let late' = subst (λ m. limit ≤ elapsed (a.poll m).tick a.start_tick) same late in
    if-both P (has_ended p.exit && has_ended p.exit_again) _ _ (λ _. ground arith)
      (λ _.
        if-both P check.up _ _ (λ _. ground arith)
          (λ _.
            if-both P (ltb (elapsed p.tick a.start_tick) limit || d') _ _
              (λ more. absurd (ground arith)) (λ _. ground arith)))
await_ready-ends (suc n) (suc f) a port limit d k h late alone =
    let p = a.poll k in
    let check = check_if_server_is_up p.probe port in
    let same : (k + suc n) ≡ (k + 1) + n = omega arith in
    let P = λ (o : Option Waited). o ≢ none in
    let d' = is_debugger_is_attached a.worker p.job p.present in
    if-both P (has_ended p.exit && has_ended p.exit_again) _ _ (λ _. ground arith)
      (λ _.
        if-both P check.up _ _ (λ _. ground arith)
          (λ _.
            if-both P (ltb (elapsed p.tick a.start_tick) limit || d') _ _
              (λ _.
                await_ready-ends n f a port limit d' (k + 1) (omega arith)
                  (subst (λ m. limit ≤ elapsed (a.poll m).tick a.start_tick) same late)
                  (subst
                    (λ m.
                      is_debugger_is_attached a.worker (a.poll m).job (a.poll m).present ≡ false)
                    same alone))
              (λ _. ground arith)))

-- More fuel changes nothing.
await_ready-more :
    (f more : ℕ) (a : CheckAnswers) (port limit : ℕ) (d : Bool) (k : ℕ)
    → await_ready f a port limit d k ≢ none
    → await_ready (f + more) a port limit d k ≡ await_ready f a port limit d k
unfolding await_ready
await_ready-more zero more a port limit d k h = absurd (h refl)
await_ready-more (suc f) more a port limit d k h =
    let p = a.poll k in
    let check = check_if_server_is_up p.probe port in
    let d' = is_debugger_is_attached a.worker p.job p.present in
    let next = await_ready-more f more a port limit d' (k + 1) in
    let step : suc f + more ≡ suc (f + more) = omega arith in
    rw step (elim (Bool-cases (has_ended p.exit && has_ended p.exit_again)) [
      | inl e ↦ rw e refl
      | inr e ↦ rw e (elim (Bool-cases check.up) [
        | inl u ↦ rw u refl
        | inr u ↦ rw u (elim (Bool-cases (ltb (elapsed p.tick a.start_tick) limit || d')) [
          | inl w ↦ rw w (next (λ z. h (rw (e, u, w) z)))
          | inr w ↦ rw w refl
        ])
      ])
    ])

after_wait-ends :
    (a : CheckAnswers) (s : Server) (o : Option Waited)
    → IsFresh s
    → o ≢ none
    → after_wait a s o ≢ no_fuel
unfolding after_wait
after_wait-ends a s none f h = absurd (h refl)
after_wait-ends a s (some (ended_early d)) f h = ground arith
after_wait-ends a s (some (gave_up_waiting d)) f h = ground arith
after_wait-ends a s (some (came_up pid d)) f h =
    λ e. subst (Checked a pid s) e (after_ready-Checked a pid s d s f refl)

-- PostStartCheck of a server that is held, not ready and without a connection ends: if the time limit has
-- passed, at a round within the fuel, while no debugger is attached, then the fuel does not run out, and more fuel
-- gives the same result.
pub post_start_check-ends :
    (fuel : ℕ) (a : CheckAnswers) (s : Server)
    → IsFresh s
    → IsPatient s.settings.startup_time_limit fuel a
    → (post_start_check fuel a s ≢ no_fuel)
      × ((more : ℕ) → post_start_check (fuel + more) a s ≡ post_start_check fuel a s)
unfolding post_start_check
post_start_check-ends fuel a s f (n, h, late, alone) =
    let same : n ≡ 0 + n = omega arith in
    let waits =
      await_ready-ends n fuel a s.port s.settings.startup_time_limit (or_false a.first_debugger) 0 h
        (subst (λ m. s.settings.startup_time_limit ≤ elapsed (a.poll m).tick a.start_tick) same
          late)
        (subst (λ m. is_debugger_is_attached a.worker (a.poll m).job (a.poll m).present ≡ false)
          same alone) in
    (
      after_wait-ends a s _ f waits,
      λ more. ap (after_wait a s) (
          await_ready-more fuel more a s.port s.settings.startup_time_limit
            (or_false a.first_debugger) 0 waits),
    )
