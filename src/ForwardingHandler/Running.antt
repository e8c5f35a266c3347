-- ===== src/ForwardingHandler/Running.antt =====
-- The three phases of a request in FORWARDING_HANDLER, in
-- AspNetCoreModuleV2/RequestHandler/outofprocess/forwardinghandler.cpp, and what the shared ends of
-- the entry points do to them.
use iisintegration.Prelude.{
  ℕ, ◌+◌, ◌≤◌, ◌≡◌, ◌⊎◌, inl, inr, Bool, true, false, none, if-both, arith, if◌then◌else◌,
}
use iisintegration.Prelude.Win32.{failed, HResult}
use iisintegration.ForwardingHandler.{Handler, Control, System, Status}
use iisintegration.ForwardingHandler.Effect.{
  Keeps, Moves, Advances, Attempt, IsSound, fail-Attempt, Same-refl, fails, starts_http,
}
use iisintegration.ForwardingHandler.PumpEffect.{
  on_sending_request-Attempt, on_receiving_response-Attempt,
}
use iisintegration.ForwardingHandler.Pump.{
  Outcome, fail_client, on_receiving_response, on_sending_request,
}
use iisintegration.ForwardingHandler.Events.{
  async_outcome, on_async_completion, is_dropped, aborted, async_by_status, Reply, answer,
  fail_async, fail_winhttp, conclude, remove_request,
}

-- Neither before the start nor with a WebSocket.
abbrev pub IsPlain : Status → Type 0
IsPlain Status.forwarder_sending_request = Unit
IsPlain Status.forwarder_receiving_response = Unit
IsPlain Status.forwarder_done = Unit
IsPlain _ = ⊥

abbrev pub IsActive : Status → Type 0
IsActive Status.forwarder_sending_request = Unit
IsActive Status.forwarder_receiving_response = Unit
IsActive _ = ⊥

-- No WebSocket has part in the request.
abbrev pub NoWebsocket : Control → Type 0
NoWebsocket c = (c.websocket ≡ false) × (c.websocket_enabled ≡ false) × IsPlain c.status

-- The handle is open.
abbrev pub IsOpen : Control → Type 0
IsOpen c =
    NoWebsocket c
    × (c.http_handle_in_close ≡ false)
    × (c.request ≡ true)
    × (c.closings ≡ 0)
    × (c.handlers ≡ 1)
    × (c.finish_request ≡ false)
    × (c.done_async_completion ≡ false)
    × (c.has_error ≡ false)

-- The handle has been closed, and its closing is to be reported.
abbrev pub IsShut : Control → Type 0
IsShut c =
    NoWebsocket c
    × (c.http_handle_in_close ≡ true)
    × (c.request ≡ false)
    × (c.closings ≡ 1)
    × (c.handlers ≡ 1)
    × (c.finish_request ≡ false)
    × (c.done_async_completion ≡ false)

-- The closing has been reported.
abbrev pub IsFinished : Control → Type 0
IsFinished c =
    NoWebsocket c
    × (c.http_handle_in_close ≡ true)
    × (c.request ≡ false)
    × (c.closings ≡ 0)
    × (c.handlers ≡ 0)
    × (c.finish_request ≡ true)
    × (c.http_pending ≡ 0)

-- Something is to come, or the request is done with.
abbrev pub IsRunning : Control → Type 0
IsRunning c = IsOpen c × IsActive c.status × (1 ≤ c.http_pending + c.iis_pending)

abbrev pub IsClosing : Control → Type 0
IsClosing c = IsShut c × ((c.status ≡ Status.forwarder_done) ⊎ (1 ≤ c.iis_pending))

abbrev pub IsEnding : Control → Type 0
IsEnding c =
    IsFinished c
    × ((c.done_async_completion ≡ true)
        ⊎ (((c.status ≡ Status.forwarder_done) × (1 ≤ c.iis_pending)) ⊎ (2 ≤ c.iis_pending)))

-- `fail_async` closes the handle if it is open, and counts nothing else.
fail_async-IsOpen :
    (s : System) (client : Bool) (hr : HResult) (h : Handler)
    → s.close_handle ≡ none
    → IsOpen h.control
    → IsClosing (fail_async s client hr h).control
unfolding fail_async remove_request
fail_async-IsOpen s client hr h e o = ground arith

-- An outcome keeps the handle open.
pub IsOpen-Keeps : (c d : Control) → IsOpen c → Keeps c d → IsPlain d.status → IsOpen d
IsOpen-Keeps c d o k p = ground arith

pub IsActive-IsPlain : (st : Status) → IsActive st → IsPlain st
IsActive-IsPlain Status.forwarder_sending_request a = tt
IsActive-IsPlain Status.forwarder_receiving_response a = tt
IsActive-IsPlain _ a = elim a [ ]

pub IsPlain-Moves : (c d : Control) → Moves c d → IsPlain c.status → IsPlain d.status
IsPlain-Moves c d (inl e) p = rw e p
IsPlain-Moves c d (inr (inl e)) p = rw e tt
IsPlain-Moves c d (inr (inr e)) p = rw e tt

pub IsActive-Advances : (c d : Control) → Advances c d → IsActive c.status → IsActive d.status
IsActive-Advances c d (inl e) p = rw e p
IsActive-Advances c d (inr e) p = rw e tt

async_outcome-IsOpen :
    (s : System) (c : Control) (o : Outcome)
    → s.close_handle ≡ none
    → IsOpen c
    → IsActive c.status
    → Attempt c o
    → IsRunning (async_outcome s o).control ⊎ IsClosing (async_outcome s o).control
async_outcome-IsOpen s c o e w a (fails f x k m p q) = rw f (
    inr (
      fail_async-IsOpen s o.client_error o.hr o.handler e
        (IsOpen-Keeps c o.handler.control w k (IsPlain-Moves c o.handler.control m w.0.2))))
async_outcome-IsOpen s c o e w a (starts_http f x k m r p q) =
    let active = IsActive-Advances c o.handler.control m a in
    rw f (
      inl (
        IsOpen-Keeps c o.handler.control w k (IsActive-IsPlain o.handler.control.status active),
        active,
        omega arith,
      ))

-- What a request goes through.
abbrev pub IsLive : Control → Type 0
IsLive c = IsRunning c ⊎ (IsClosing c ⊎ IsEnding c)

pub receive-Attempt :
    (s : System) (completion : HResult) (h : Handler)
    → h.control.websocket_enabled ≡ false
    → IsSound s h.control
    → Attempt h.control
        (if failed completion then fail_client completion h else on_receiving_response s h)
receive-Attempt s completion h w law =
    if-both (Attempt h.control) (failed completion) _ _
      (λ f. fail-Attempt h.control completion true h f (Same-refl h.control w))
      (λ _. on_receiving_response-Attempt s h w law)

async_by_status-IsOpen :
    (st : Status) (s : System) (n : ℕ) (completion : HResult) (h : Handler)
    → s.close_handle ≡ none
    → IsSound s h.control
    → IsOpen h.control
    → IsActive h.control.status
    → IsActive st
    → IsRunning (async_by_status st s n completion h).1.control
      ⊎ IsClosing (async_by_status st s n completion h).1.control
unfolding answer
async_by_status-IsOpen Status.forwarder_sending_request s n completion h e law o a b =
    async_outcome-IsOpen s h.control (on_sending_request s n completion h) e o a
      (on_sending_request-Attempt s h o.0.1 law n completion)
async_by_status-IsOpen Status.forwarder_receiving_response s n completion h e law o a b =
    async_outcome-IsOpen s h.control _ e o a (receive-Attempt s completion h o.0.1 law)
async_by_status-IsOpen _ s n completion h e law o a b = elim b [ ]

-- An event of IIS, while the handle is open.
pub on_async_completion-IsOpen :
    (s : System) (n : ℕ) (completion : HResult) (h : Handler)
    → s.close_handle ≡ none
    → IsSound s h.control
    → IsOpen h.control
    → IsActive h.control.status
    → IsRunning (on_async_completion s n completion h).1.control
      ⊎ IsClosing (on_async_completion s n completion h).1.control
unfolding on_async_completion answer
on_async_completion-IsOpen s n completion h e law o a =
    if-both (λ (r : Reply × Handler). IsRunning r.1.control ⊎ IsClosing r.1.control) (is_dropped h)
      _ _ (λ _. inr (fail_async-IsOpen s false aborted h e o))
      (λ _. async_by_status-IsOpen h.control.status s n completion h e law o a a)

-- A failure reported by WinHTTP, while the handle is open.
pub fail_winhttp-IsOpen :
    (s : System) (client another : Bool) (hr : HResult) (h : Handler)
    → s.close_handle ≡ none
    → IsOpen h.control
    → IsClosing (conclude s false another (fail_winhttp client hr h)).control
unfolding fail_winhttp conclude remove_request
fail_winhttp-IsOpen s client another hr h e o = ground arith
