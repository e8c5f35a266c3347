-- ===== src/ProcessManager/Rapid.antt =====
-- The count of rapid failures per minute of PROCESS_MANAGER, in
-- AspNetCoreModuleV2/RequestHandler/outofprocess/processmanager.h.
use iisintegration.Prelude.{ℕ, ◌+◌, ◌%◌, ◌<◌, ◌≡◌, ◌^◌, arith, false, ltb, leb, if◌then◌else◌}
use iisintegration.ProcessManager.{
  dword, elapsed, one_minute_in_milliseconds, rapid_fails_per_minute_exceeded, reset_window,
  Manager,
}

pub elapsed-mod : (t d : ℕ) → d < dword → elapsed ((t + d) % dword) (t % dword) ≡ d
elapsed-mod t d h = omega arith

-- Milliseconds `d`, fewer than 2^32, after the minute started at time `t`, both read by
-- `GetTickCount`, which wraps every 2^32 of them, and for counts below 2^31: when fewer than 60000
-- have passed, the test compares the failures counted since with the limit, and changes nothing;
-- later it starts a new minute with no failures and answers no.
pub rapid_fails_per_minute_exceeded_lem :
    (t d limit : ℕ) (m : Manager)
    → d < dword
    → m.rapid_fail_tick_start ≡ t % dword
    → m.rapid_fail_count < 2 ^ 31
    → limit < 2 ^ 31
    → rapid_fails_per_minute_exceeded ((t + d) % dword) limit m ≡ (
        if leb one_minute_in_milliseconds d
        then (false, record m { rapid_fail_count = 0; rapid_fail_tick_start = (t + d) % dword })
        else (ltb limit m.rapid_fail_count, m))
unfolding rapid_fails_per_minute_exceeded reset_window
rapid_fails_per_minute_exceeded_lem t d limit m h e c l = ground (arith, elapsed-mod t d)
