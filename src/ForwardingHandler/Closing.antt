-- ===== src/ForwardingHandler/Closing.antt =====
-- The events that come once FORWARDING_HANDLER, in
-- AspNetCoreModuleV2/RequestHandler/outofprocess/forwardinghandler.cpp, has closed its handle.
use iisintegration.Prelude.{ℕ, ◌≤◌, ◌≡◌, ◌⊎◌, inl, inr, Bool, true, false, if-both, arith}
use iisintegration.Prelude.Win32.{HResult}
use iisintegration.ForwardingHandler.{Handler, Control, System, Status}
use iisintegration.ForwardingHandler.Effect.{Keeps, Attempt, IsSound, fails, starts_http}
use iisintegration.ForwardingHandler.PumpEffect.{on_sending_request-Attempt}
use iisintegration.ForwardingHandler.Pump.{Outcome, on_sending_request}
use iisintegration.ForwardingHandler.Running.{
  IsShut, IsClosing, IsFinished, IsEnding, IsPlain, IsPlain-Moves, receive-Attempt,
}
use iisintegration.ForwardingHandler.Events.{
  async_outcome, on_async_completion, is_dropped, aborted, async_by_status, async_done, Reply,
  answer, fail_async, remove_request, is_done,
}

pub IsShut-Keeps : (c d : Control) → IsShut c → Keeps c d → IsPlain d.status → IsShut d
IsShut-Keeps c d o k p = ground arith

fail_async-IsShut :
    (s : System) (client : Bool) (hr : HResult) (h : Handler)
    → IsShut h.control
    → IsClosing (fail_async s client hr h).control
unfolding fail_async remove_request
fail_async-IsShut s client hr h o = ground arith

async_outcome-IsShut :
    (s : System) (c : Control) (o : Outcome)
    → IsShut c
    → Attempt c o
    → IsClosing (async_outcome s o).control
async_outcome-IsShut s c o w (fails f x k m p q) = rw f (
    fail_async-IsShut s o.client_error o.hr o.handler
      (IsShut-Keeps c o.handler.control w k (IsPlain-Moves c o.handler.control m w.0.2)))
async_outcome-IsShut s c o w (starts_http f x k m r p q) = absurd (ground arith)

async_done-IsShut :
    (s : System) (h : Handler) → IsShut h.control → IsClosing (async_done s h).1.control
unfolding answer fail_async remove_request
async_done-IsShut s h o = ground arith

async_by_status-IsShut :
    (st : Status) (s : System) (n : ℕ) (completion : HResult) (h : Handler)
    → IsSound s h.control
    → IsShut h.control
    → IsPlain st
    → IsClosing (async_by_status st s n completion h).1.control
unfolding answer
async_by_status-IsShut Status.forwarder_sending_request s n completion h law o b =
    async_outcome-IsShut s h.control (on_sending_request s n completion h) o
      (on_sending_request-Attempt s h o.0.1 law n completion)
async_by_status-IsShut Status.forwarder_receiving_response s n completion h law o b =
    async_outcome-IsShut s h.control _ o (receive-Attempt s completion h o.0.1 law)
async_by_status-IsShut Status.forwarder_done s n completion h law o b = async_done-IsShut s h o
async_by_status-IsShut _ s n completion h law o b = elim b [ ]

-- An event of IIS, after the handle has been closed.
pub on_async_completion-IsShut :
    (s : System) (n : ℕ) (completion : HResult) (h : Handler)
    → IsSound s h.control
    → IsShut h.control
    → IsClosing (on_async_completion s n completion h).1.control
unfolding on_async_completion answer
on_async_completion-IsShut s n completion h law o =
    if-both (λ (r : Reply × Handler). IsClosing r.1.control) (is_dropped h) _ _
      (λ _. fail_async-IsShut s false aborted h o)
      (λ _. async_by_status-IsShut h.control.status s n completion h law o o.0.2)

-- What a request is after its last event but `n`.
abbrev pub IsLeft : ℕ → Control → Type 0
IsLeft n c = IsFinished c × (c.iis_pending ≡ n)

IsLeft-Keeps :
    (n : ℕ) (c d : Control)
    → IsLeft n c
    → Keeps c d
    → IsPlain d.status
    → d.http_pending ≡ c.http_pending
    → d.iis_pending ≡ c.iis_pending
    → IsLeft n d × (d.done_async_completion ≡ c.done_async_completion)
IsLeft-Keeps n c d o k p x y = ground arith

-- Nothing is left to answer, or another completion of IIS is to come.
abbrev pub IsCovered : ℕ → Control → Type 0
IsCovered n c = (c.done_async_completion ≡ true) ⊎ (1 ≤ n)

fail_async-IsFinished :
    (s : System) (client : Bool) (hr : HResult) (n : ℕ) (h : Handler)
    → IsLeft n h.control
    → IsCovered n h.control
    → IsEnding (fail_async s client hr h).control
unfolding fail_async remove_request
fail_async-IsFinished s client hr n h o p = ground arith

async_outcome-IsFinished :
    (s : System) (c : Control) (n : ℕ) (o : Outcome)
    → IsLeft n c
    → IsCovered n c
    → Attempt c o
    → IsEnding (async_outcome s o).control
async_outcome-IsFinished s c n o w l (fails f x k m p q) =
    let (left, same) =
      IsLeft-Keeps n c o.handler.control w k (IsPlain-Moves c o.handler.control m w.0.0.2) p q in
    rw f (fail_async-IsFinished s o.client_error o.hr n o.handler left (rw same l))
async_outcome-IsFinished s c n o w l (starts_http f x k m r p q) = absurd (ground arith)

async_done-IsFinished :
    (s : System) (n : ℕ) (h : Handler) → IsLeft n h.control → IsEnding (async_done s h).1.control
unfolding answer remove_request
async_done-IsFinished s n h o = ground arith

async_by_status-IsFinished :
    (st : Status) (s : System) (n k : ℕ) (completion : HResult) (h : Handler)
    → IsSound s h.control
    → IsLeft k h.control
    → (is_done st ≡ true) ⊎ IsCovered k h.control
    → IsPlain st
    → IsEnding (async_by_status st s n completion h).1.control
unfolding answer
async_by_status-IsFinished Status.forwarder_sending_request s n k completion h law o (inr l) b =
    async_outcome-IsFinished s h.control k (on_sending_request s n completion h) o l
      (on_sending_request-Attempt s h o.0.0.1 law n completion)
async_by_status-IsFinished Status.forwarder_receiving_response s n k completion h law o (inr l) b =
    async_outcome-IsFinished s h.control k _ o l (receive-Attempt s completion h o.0.0.1 law)
async_by_status-IsFinished Status.forwarder_done s n k completion h law o l b =
    async_done-IsFinished s k h o
async_by_status-IsFinished Status.forwarder_sending_request s n k completion h law o (inl e) b =
    absurd (ground arith)
async_by_status-IsFinished Status.forwarder_receiving_response s n k completion h law o (inl e) b =
    absurd (ground arith)
async_by_status-IsFinished _ s n k completion h law o l b = elim b [ ]

-- An event of IIS, after the closing has been reported.
pub on_async_completion-IsFinished :
    (s : System) (n k : ℕ) (completion : HResult) (h : Handler)
    → IsSound s h.control
    → IsLeft k h.control
    → (is_done h.control.status ≡ true) ⊎ IsCovered k h.control
    → IsEnding (on_async_completion s n completion h).1.control
unfolding on_async_completion answer
on_async_completion-IsFinished s n k completion h law o l =
    if-both (λ (r : Reply × Handler). IsEnding r.1.control) (is_dropped h) _ _
      (λ d. fail_async-IsFinished s false aborted k h o (ground arith))
      (λ _. async_by_status-IsFinished h.control.status s n k completion h law o l o.0.0.2)
