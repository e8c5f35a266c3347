-- ===== src/ServerProcess/Fits.antt =====
-- There is room for the children of one search: GetChildProcessHandles of
-- AspNetCoreModuleV2/RequestHandler/outofprocess/serverprocess.cxx.
use iisintegration.Prelude.{
  zero, suc, ◌+◌, ◌≢◌, List, [], ◌∷◌, length, lt→ltb, ℕ, ◌≤◌, ◌≡◌, arith, false, ◌||◌, Option, none,
  ◌==◌, if-both,
}
use iisintegration.ServerProcess.{max_active_child_processes, Children, Handle}
use iisintegration.ServerProcess.Codes.{Code, failed_code}
use iisintegration.ServerProcess.Jobs.{
  JobAnswer, query_job, judge, job_no_memory, job_error, job_list, asks_again, store_children,
  store_children,
}

judge-fits :
    (j : JobAnswer)
    → failed_code (judge j).0 ≡ false
    → length (judge j).1 ≤ max_active_child_processes
judge-fits job_no_memory ok = absurd (ground arith)
judge-fits (job_error e) ok = absurd (ground arith)
judge-fits (job_list more assigned pids) ok = ground arith

pub query_job-fits :
    (left : ℕ) (answer : ℕ → JobAnswer) (k : ℕ)
    → failed_code (query_job left answer k).0 ≡ false
    → length (query_job left answer k).1 ≤ max_active_child_processes
unfolding query_job
query_job-fits zero answer k = judge-fits (answer k)
query_job-fits (suc left) answer k =
    if-both
      (λ (r : Code × List ℕ). failed_code r.0 ≡ false → length r.1 ≤ max_active_child_processes)
      (asks_again (answer k)) _ _ (λ _. query_job-fits left answer (k + 1))
      (λ _. judge-fits (answer k))

-- As many children as there is room for are stored.
pub store_children-fits :
    (worker own : ℕ) (open_process : ℕ → Handle) (pids : List ℕ) (c : Children)
    → c.count + length pids ≤ max_active_child_processes
    → store_children worker own open_process pids c ≢ none
store_children-fits worker own open_process [] c h = ground arith
store_children-fits worker own open_process (p ∷ ps) c h =
    if-both (λ (o : Option Children). o ≢ none) (p == own || p == worker) _ _
      (λ _. store_children-fits worker own open_process ps c (omega arith))
      (λ _.
        rw (lt→ltb c.count max_active_child_processes (omega arith))
          (store_children-fits worker own open_process ps _ (omega arith)))
