-- ===== src/ServerProcess/Kept.antt =====
-- PostStartCheck of AspNetCoreModuleV2/RequestHandler/outofprocess/serverprocess.cxx leaves the children
-- alone where the table of listeners cannot be read.
use iisintegration.Prelude.{ℕ, ◌≡◌, arith, Bool, false, not, Option, none, some, if-both}
use iisintegration.ServerProcess.{Server, register_process_wait}
use iisintegration.ServerProcess.Codes.{Code, failed_code}
use iisintegration.ServerProcess.Watch.{IsFresh, register-IsFresh}
use iisintegration.ServerProcess.Check.{
  CheckAnswers, Waited, ended_early, came_up, gave_up_waiting, Run, no_fuel, out_of_bounds, done,
  connect_with, after_ready, after_wait, post_start_check,
}

-- The children are those of `s0`, and no array is left.
abbrev pub KeepsChildren : Server → Run (Code × Server) → Type 0
KeepsChildren s0 (done (hr, s)) = s.children ≡ s0.children
KeepsChildren s0 out_of_bounds = ⊥
KeepsChildren s0 no_fuel = Unit

connect_with-KeepsChildren :
    (o : Option ℕ) (a : CheckAnswers) (d : Bool) (s s0 : Server)
    → s.children ≡ s0.children
    → KeepsChildren s0 (connect_with o a d s)
connect_with-KeepsChildren none a d s s0 e = ground arith
connect_with-KeepsChildren (some p) a d s s0 e = ground arith

after_ready-KeepsChildren :
    (a : CheckAnswers) (d : Bool) (pid : ℕ) (s : Server)
    → IsFresh s
    → a.nsi ≡ false
    → KeepsChildren s (after_ready a d pid s)
unfolding after_ready
after_ready-KeepsChildren a d pid s f e =
    let r = register_process_wait a.register s.process s in
    let s2 = record r.1 { process_wait = r.0.1 } in
    let same = (register-IsFresh a.register s.process s f).2 in
    if-both (KeepsChildren s) (failed_code r.0.0) _ _ (λ no. ground arith)
      (λ ok.
        if-both (KeepsChildren s) (not a.nsi) _ _
          (λ n. connect_with-KeepsChildren s2.connection a _ s2 s same)
          (λ y. absurd (ground arith)))

after_wait-KeepsChildren :
    (a : CheckAnswers) (s : Server) (o : Option Waited)
    → IsFresh s
    → a.nsi ≡ false
    → KeepsChildren s (after_wait a s o)
unfolding after_wait
after_wait-KeepsChildren a s none f e = tt
after_wait-KeepsChildren a s (some (ended_early d)) f e = ground arith
after_wait-KeepsChildren a s (some (gave_up_waiting d)) f e = ground arith
after_wait-KeepsChildren a s (some (came_up pid d)) f e = after_ready-KeepsChildren a d pid s f e

pub post_start_check-KeepsChildren :
    (fuel : ℕ) (a : CheckAnswers) (s : Server)
    → IsFresh s
    → a.nsi ≡ false
    → KeepsChildren s (post_start_check fuel a s)
unfolding post_start_check
post_start_check-KeepsChildren fuel a s f e = after_wait-KeepsChildren a s _ f e
