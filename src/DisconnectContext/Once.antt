-- ===== src/DisconnectContext/Once.antt =====
-- The reference of ASYNC_DISCONNECT_CONTEXT, in
-- AspNetCoreModuleV2/RequestHandler/disconnectcontext.h, under every interleaving.
use iisintegration.Prelude.{ℕ, ◌+◌, ◌≤◌, ◌≡◌, arith, Bool, false, if◌then◌else◌}
use iisintegration.DisconnectContext.{
  Context, set_handler, take_to_notify, notify_taken, take_to_reset, reset_taken, Turn, Turns,
  notify_exchange, notify_release, reset_exchange, reset_release, no_turn, turn,
}

abbrev bit : Bool → ℕ
bit b = if b then 1 else 0

-- `k` references are other objects' own; `t` terminations came before.
abbrev pub IsBalanced : ℕ → ℕ → Context → Type 0
IsBalanced k t c =
    (c.references ≡ k + bit c.registered + c.notifying + c.resetting)
    × (c.terminations + bit c.registered + c.notifying + c.resetting ≤ t + 1)

Turn-IsBalanced : (k t : ℕ) {c d : Context} → Turn c d → IsBalanced k t c → IsBalanced k t d
unfolding take_to_notify notify_taken take_to_reset reset_taken
Turn-IsBalanced k t notify_exchange b = ground arith
Turn-IsBalanced k t (notify_release n e) b = ground arith
Turn-IsBalanced k t reset_exchange b = ground arith
Turn-IsBalanced k t (reset_release n e) b = ground arith

Turns-IsBalanced : (k t : ℕ) {c d : Context} → Turns c d → IsBalanced k t c → IsBalanced k t d
Turns-IsBalanced k t no_turn b = b
Turns-IsBalanced k t (turn r s) b = Turn-IsBalanced k t s (Turns-IsBalanced k t r b)

-- After SetHandler on a context without a handler, however the steps of any number of calls of
-- NotifyDisconnect and ResetHandler interleave: the handler has its other references, one for the
-- context while it is registered, and one for the thread that has taken it and not given it up, so
-- that no thread uses a handler without a reference and the reference is given up once; and
-- TerminateRequest is called once at most.
pub set_handler-IsBalanced :
    (c d : Context)
    → c.registered ≡ false
    → c.notifying ≡ 0
    → c.resetting ≡ 0
    → Turns (set_handler c) d
    → IsBalanced c.references c.terminations d
unfolding set_handler
set_handler-IsBalanced c d r n m turns =
    Turns-IsBalanced c.references c.terminations turns (ground arith)
