-- ===== src/ForwardingHandler/Notices.antt =====
-- The notices of WinHTTP and a handle's closing in FORWARDING_HANDLER, in
-- AspNetCoreModuleV2/RequestHandler/outofprocess/forwardinghandler.cpp.
use iisintegration.Prelude.{◌≤◌, ◌≡◌, refl, ◌⊎◌, inr, Bool, true, false, not, none, if-both, arith}
use iisintegration.Prelude.Win32.{HResult}
use iisintegration.ForwardingHandler.{Handler, Control, System, Status}
use iisintegration.ForwardingHandler.Pump.{Outcome, await}
use iisintegration.ForwardingHandler.Running.{
  NoWebsocket, IsRunning, IsClosing, IsEnding, fail_winhttp-IsOpen,
}
use iisintegration.ForwardingHandler.Callbacks.{conclude-IsOpen}
use iisintegration.ForwardingHandler.Steps.{IsNotice, end_closing}
use iisintegration.ForwardingHandler.Events.{
  Callback, on_callback, on_winhttp_completion, winhttp_outcome, fail_winhttp, conclude,
  remove_request, is_dropped, is_done, on_handle_closing, count_handle, is_websocket, is_closing,
  aborted, sending_request, request_sent, handle_closing,
}

pub notice_closing : (cb : Callback) → IsNotice cb → is_closing cb ≡ false
notice_closing sending_request i = refl
notice_closing request_sent i = refl
notice_closing _ i = elim i [ ]

notice_await :
    (s : System) (cb : Callback) (h : Handler) → IsNotice cb → on_callback s cb h ≡ await h
notice_await s sending_request h i = refl
notice_await s request_sent h i = refl
notice_await s _ h i = elim i [ ]

-- A callback that tells how an operation is getting on.
pub notice-IsOpen :
    (s : System) (cb : Callback) (h : Handler)
    → IsNotice cb
    → s.close_handle ≡ none
    → IsRunning h.control
    → 1 ≤ h.control.http_pending
    → IsRunning (on_winhttp_completion s cb h).control
      ⊎ IsClosing (on_winhttp_completion s cb h).control
unfolding on_winhttp_completion
notice-IsOpen s cb h i e o p = rw (notice_closing cb i) (
    if-both (λ (g : Handler). IsRunning g.control ⊎ IsClosing g.control) h.control.finish_request _
      _ (λ d. absurd (ground arith))
      (λ _.
        if-both (λ (g : Handler). IsRunning g.control ⊎ IsClosing g.control) (is_dropped h) _ _
          (λ _. inr (fail_winhttp-IsOpen s false false aborted h e o.0))
          (λ _.
            if-both (λ (g : Handler). IsRunning g.control ⊎ IsClosing g.control)
              (is_websocket h.control.status) _ _ (λ d. absurd (ground arith))
              (λ _. rw (notice_await s cb h i) (
                conclude-IsOpen s true h.control.status h e o.0 o.0.0.2 refl
                  (inr (omega arith)))))))

pub notice-IsClosing :
    (s : System) (cb : Callback) (h : Handler)
    → IsNotice cb
    → IsClosing h.control
    → IsClosing (on_winhttp_completion s cb h).control
unfolding on_winhttp_completion fail_winhttp conclude remove_request
notice-IsClosing s sending_request h i o = ground arith
notice-IsClosing s request_sent h i o = ground arith
notice-IsClosing s _ h i o = elim i [ ]

-- The handle's closing has come, and has been counted.
abbrev IsCounted : Control → Type 0
IsCounted c =
    NoWebsocket c
    × (c.http_handle_in_close ≡ true)
    × (c.request ≡ false)
    × (c.closings ≡ 0)
    × (c.handlers ≡ 0)
    × (c.finish_request ≡ false)
    × (c.http_pending ≡ 0)
    × ((c.status ≡ Status.forwarder_done) ⊎ (1 ≤ c.iis_pending))

conclude-IsCounted :
    (s : System) (another : Bool) (h : Handler)
    → IsCounted h.control
    → IsEnding (conclude s true another h).control
unfolding conclude
conclude-IsCounted s another h o = ground arith

fail_winhttp-IsCounted :
    (client : Bool) (hr : HResult) (h : Handler)
    → IsCounted h.control
    → IsCounted (fail_winhttp client hr h).control
unfolding fail_winhttp
fail_winhttp-IsCounted client hr h o = ground arith

on_handle_closing-IsCounted :
    (s : System) (h : Handler)
    → IsCounted h.control
    → IsEnding (winhttp_outcome s true (on_handle_closing h)).control
on_handle_closing-IsCounted s h o =
    if-both (λ (r : Outcome). IsEnding (winhttp_outcome s true r).control)
      (not (is_done h.control.status)) _ _
      (λ _.
        conclude-IsCounted s false (record h { control = record h.control { request = false } })
          (ground arith))
      (λ _.
        conclude-IsCounted s false (record h { control = record h.control { request = false } })
          (ground arith))

pub closing-IsClosing :
    (s : System) (h : Handler)
    → IsClosing h.control
    → h.control.http_pending ≡ 0
    → IsEnding (on_winhttp_completion s handle_closing (end_closing 0 h)).control
unfolding on_winhttp_completion
closing-IsClosing s h o z =
    let g = count_handle handle_closing (end_closing 0 h) in
    let counted : IsCounted g.control = ground arith in
    if-both (λ (r : Handler). IsEnding r.control) g.control.finish_request _ _
      (λ d. absurd (ground arith))
      (λ _.
        if-both (λ (r : Handler). IsEnding r.control) (is_dropped g) _ _
          (λ _.
            conclude-IsCounted s false (fail_winhttp false aborted g)
              (fail_winhttp-IsCounted false aborted g counted))
          (λ _.
            if-both (λ (r : Handler). IsEnding r.control) (is_websocket g.control.status) _ _
              (λ d. absurd (ground arith)) (λ _. on_handle_closing-IsCounted s g counted)))
