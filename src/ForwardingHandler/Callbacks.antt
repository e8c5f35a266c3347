-- ===== src/ForwardingHandler/Callbacks.antt =====
-- The callbacks of WinHTTP in FORWARDING_HANDLER, in
-- AspNetCoreModuleV2/RequestHandler/outofprocess/forwardinghandler.cpp, by the phase of the request.
use iisintegration.Prelude.{
  ◌+◌, ◌≤◌, ◌≡◌, refl, ◌⊎◌, inl, inr, Bool, true, false, none, if-both, arith,
}
use iisintegration.Prelude.Win32.{HResult, hresult_from_win32}
use iisintegration.ForwardingHandler.{Handler, Control, System, Status}
use iisintegration.ForwardingHandler.Effect.{
  Effect, IsSound, fails, starts_http, attempts, starts_iis, starts_nothing, fail-Effect, Same-refl,
}
use iisintegration.ForwardingHandler.PumpEffect.{
  on_send_request_or_write_complete-Effect, on_status_headers_available-Effect,
  on_status_data_available-Effect, on_status_read_complete-Effect,
}
use iisintegration.ForwardingHandler.Pump.{Outcome}
use iisintegration.ForwardingHandler.Running.{
  IsOpen, IsOpen-Keeps, IsRunning, IsShut, IsClosing, IsPlain, IsPlain-Moves, fail_winhttp-IsOpen,
}
use iisintegration.ForwardingHandler.Closing.{IsShut-Keeps}
use iisintegration.ForwardingHandler.Steps.{IsCompletion}
use iisintegration.ForwardingHandler.Events.{
  Callback, on_callback, on_winhttp_completion, winhttp_outcome, fail_winhttp, conclude,
  remove_request, is_dropped, is_websocket, is_closing, aborted, sendrequest_complete,
  write_complete, headers_available, data_available, read_complete, request_error,
}

pub on_callback-Effect :
    (s : System) (cb : Callback) (h : Handler)
    → IsCompletion cb
    → h.control.websocket_enabled ≡ false
    → IsSound s h.control
    → Effect h.control (on_callback s cb h)
on_callback-Effect s sendrequest_complete h i w law =
    on_send_request_or_write_complete-Effect s h w law
on_callback-Effect s write_complete h i w law = on_send_request_or_write_complete-Effect s h w law
on_callback-Effect s headers_available h i w law = on_status_headers_available-Effect s h w law
on_callback-Effect s (data_available n) h i w law = on_status_data_available-Effect s h w law n
on_callback-Effect s (read_complete n) h i w law = on_status_read_complete-Effect s h w law n
on_callback-Effect s (request_error e) h i w law =
    fail-Effect h.control (hresult_from_win32 e) false h i (Same-refl h.control w)
on_callback-Effect s _ h i w law = elim i [ ]

-- After a callback that has gone well, while the handle is open.
pub conclude-IsOpen :
    (s : System) (another : Bool) (st : Status) (h : Handler)
    → s.close_handle ≡ none
    → IsOpen h.control
    → IsPlain st
    → h.control.status ≡ st
    → (another ≡ false) ⊎ (1 ≤ h.control.http_pending + h.control.iis_pending)
    → IsRunning (conclude s false another h).control
      ⊎ IsClosing (conclude s false another h).control
unfolding conclude remove_request
conclude-IsOpen s another Status.forwarder_done h e o p q l = inr (ground arith)
conclude-IsOpen s false Status.forwarder_sending_request h e o p q l = inl (ground arith)
conclude-IsOpen s true Status.forwarder_sending_request h e o p q l = inl (ground arith)
conclude-IsOpen s false Status.forwarder_receiving_response h e o p q l = inl (ground arith)
conclude-IsOpen s true Status.forwarder_receiving_response h e o p q l = inl (ground arith)
conclude-IsOpen s another _ h e o p q l = elim p [ ]

-- The end of an operation, while the handle is open.
winhttp_outcome-IsOpen :
    (s : System) (c : Control) (o : Outcome)
    → s.close_handle ≡ none
    → IsOpen c
    → IsPlain c.status
    → Effect c o
    → IsRunning (winhttp_outcome s false o).control ⊎ IsClosing (winhttp_outcome s false o).control
winhttp_outcome-IsOpen s c o e w a (attempts (fails f x k m p q)) = rw f (
    inr (
      fail_winhttp-IsOpen s o.client_error o.another o.hr o.handler e
        (IsOpen-Keeps c o.handler.control w k (IsPlain-Moves c o.handler.control m a))))
winhttp_outcome-IsOpen s c o e w a (attempts (starts_http f x k m r p q)) =
    let plain =
      IsPlain-Moves c o.handler.control (elim m [ inl i ↦ inl i | inr i ↦ inr (inl i) ]) a in
    rw f (
      conclude-IsOpen s o.another o.handler.control.status o.handler e
        (IsOpen-Keeps c o.handler.control w k plain) plain refl (inr (omega arith)))
winhttp_outcome-IsOpen s c o e w a (starts_iis f x k m p q) =
    let plain = IsPlain-Moves c o.handler.control m a in
    rw f (
      conclude-IsOpen s o.another o.handler.control.status o.handler e
        (IsOpen-Keeps c o.handler.control w k plain) plain refl (inr (omega arith)))
winhttp_outcome-IsOpen s c o e w a (starts_nothing f x k m p q) =
    let plain = IsPlain-Moves c o.handler.control m a in
    rw f (
      conclude-IsOpen s o.another o.handler.control.status o.handler e
        (IsOpen-Keeps c o.handler.control w k plain) plain refl (inl x))

pub on_winhttp_completion-IsOpen :
    (s : System) (cb : Callback) (h : Handler)
    → IsOpen h.control
    → Effect h.control (on_callback s cb h)
    → s.close_handle ≡ none
    → is_closing cb ≡ false
    → IsRunning (on_winhttp_completion s cb h).control
      ⊎ IsClosing (on_winhttp_completion s cb h).control
unfolding on_winhttp_completion
on_winhttp_completion-IsOpen s cb h o f e k = rw k (
    if-both (λ (g : Handler). IsRunning g.control ⊎ IsClosing g.control) h.control.finish_request _
      _ (λ d. absurd (ground arith))
      (λ _.
        if-both (λ (g : Handler). IsRunning g.control ⊎ IsClosing g.control) (is_dropped h) _ _
          (λ _. inr (fail_winhttp-IsOpen s false false aborted h e o))
          (λ _.
            if-both (λ (g : Handler). IsRunning g.control ⊎ IsClosing g.control)
              (is_websocket h.control.status) _ _ (λ d. absurd (ground arith))
              (λ _. winhttp_outcome-IsOpen s h.control (on_callback s cb h) e o o.0.2 f))))

fail_winhttp-IsShut :
    (s : System) (client : Bool) (hr : HResult) (h : Handler)
    → IsShut h.control
    → IsClosing (conclude s false false (fail_winhttp client hr h)).control
unfolding fail_winhttp conclude remove_request
fail_winhttp-IsShut s client hr h o = ground arith

conclude-IsShut :
    (s : System) (another : Bool) (h : Handler)
    → IsShut h.control
    → (another ≡ false) ⊎ ((h.control.status ≡ Status.forwarder_done) ⊎ (1 ≤ h.control.iis_pending))
    → IsClosing (conclude s false another h).control
unfolding conclude remove_request
conclude-IsShut s another h o l = ground arith

-- The end of an operation, after the handle has been closed.
winhttp_outcome-IsShut :
    (s : System) (c : Control) (o : Outcome)
    → IsShut c
    → Effect c o
    → IsClosing (winhttp_outcome s false o).control
winhttp_outcome-IsShut s c o w (attempts (fails f x k m p q)) =
    rw (f, x)
      (fail_winhttp-IsShut s o.client_error o.hr o.handler
        (IsShut-Keeps c o.handler.control w k (IsPlain-Moves c o.handler.control m w.0.2)))
winhttp_outcome-IsShut s c o w (attempts (starts_http f x k m r p q)) = absurd (ground arith)
winhttp_outcome-IsShut s c o w (starts_iis f x k m p q) = rw f (
    conclude-IsShut s o.another o.handler
      (IsShut-Keeps c o.handler.control w k (IsPlain-Moves c o.handler.control m w.0.2))
      (inr (inr (omega arith))))
winhttp_outcome-IsShut s c o w (starts_nothing f x k m p q) = rw f (
    conclude-IsShut s o.another o.handler
      (IsShut-Keeps c o.handler.control w k (IsPlain-Moves c o.handler.control m w.0.2)) (inl x))

pub on_winhttp_completion-IsShut :
    (s : System) (cb : Callback) (h : Handler)
    → IsShut h.control
    → Effect h.control (on_callback s cb h)
    → is_closing cb ≡ false
    → IsClosing (on_winhttp_completion s cb h).control
unfolding on_winhttp_completion
on_winhttp_completion-IsShut s cb h o f k = rw k (
    if-both (λ (g : Handler). IsClosing g.control) h.control.finish_request _ _
      (λ d. absurd (ground arith))
      (λ _.
        if-both (λ (g : Handler). IsClosing g.control) (is_dropped h) _ _
          (λ _. fail_winhttp-IsShut s false aborted h o)
          (λ _.
            if-both (λ (g : Handler). IsClosing g.control) (is_websocket h.control.status) _ _
              (λ d. absurd (ground arith))
              (λ _. winhttp_outcome-IsShut s h.control (on_callback s cb h) o f))))
