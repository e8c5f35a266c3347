-- ===== src/ForwardingHandler/Liveness.antt =====
-- Every run of a request in FORWARDING_HANDLER, in
-- AspNetCoreModuleV2/RequestHandler/outofprocess/forwardinghandler.cpp.
use iisintegration.Prelude.{
  ℕ, zero, suc, ap, List, ◌≤◌, ◌≡◌, refl, ◌⊎◌, inl, inr, Bool, true, false, none, arith,
}
use iisintegration.Prelude.Win32.{HResult}
use iisintegration.ForwardingHandler.{Handler, Control, System, Status}
use iisintegration.ForwardingHandler.Effect.{IsSound}
use iisintegration.ForwardingHandler.Running.{
  IsLive, IsRunning, IsClosing, on_async_completion-IsOpen,
}
use iisintegration.ForwardingHandler.Closing.{
  IsCovered, on_async_completion-IsShut, on_async_completion-IsFinished,
}
use iisintegration.ForwardingHandler.Callbacks.{
  on_callback-Effect, on_winhttp_completion-IsOpen, on_winhttp_completion-IsShut,
}
use iisintegration.ForwardingHandler.Notices.{notice-IsOpen, notice-IsClosing, closing-IsClosing}
use iisintegration.ForwardingHandler.Steps.{
  IsCompletion, IsNotice, Request, Step, Reach, http_step, notice_step, closing_step, iis_step,
  disconnect_step, here, next, end_http, end_iis, end_closing, add_reply,
}
use iisintegration.ForwardingHandler.Events.{
  Callback, Reply, on_winhttp_completion, is_done, is_closing, terminate_request,
  on_async_completion, handle_closing,
}

disconnect-IsLive :
    (b : Bool) (h : Handler) → IsLive h.control → IsLive (terminate_request b h).control
unfolding terminate_request
disconnect-IsLive b h l = ground arith

pub IsCompletion-is_closing : (cb : Callback) → IsCompletion cb → is_closing cb ≡ false
IsCompletion-is_closing handle_closing i = elim i [ ]
IsCompletion-is_closing _ i = refl

to_live : (c : Control) → IsRunning c ⊎ IsClosing c → IsLive c
to_live c (inl r) = inl r
to_live c (inr l) = inr (inl l)

completion-IsLive :
    (s : System) (cb : Callback) (n : ℕ) (h : Handler)
    → IsCompletion cb
    → IsSound s h.control
    → s.close_handle ≡ none
    → h.control.http_pending ≡ suc n
    → IsLive h.control
    → IsLive (on_winhttp_completion s cb (end_http n h)).control
completion-IsLive s cb n h i law e p (inl r) =
    to_live (on_winhttp_completion s cb (end_http n h)).control (
      on_winhttp_completion-IsOpen s cb (end_http n h) r.0
        (on_callback-Effect s cb (end_http n h) i r.0.0.1 law) e (IsCompletion-is_closing cb i))
completion-IsLive s cb n h i law e p (inr (inl r)) = inr (
    inl (
      on_winhttp_completion-IsShut s cb (end_http n h) r.0
        (on_callback-Effect s cb (end_http n h) i r.0.0.1 law) (IsCompletion-is_closing cb i)))
completion-IsLive s cb n h i law e p (inr (inr r)) = absurd (omega arith)

notice-IsLive :
    (s : System) (cb : Callback) (h : Handler)
    → IsNotice cb
    → s.close_handle ≡ none
    → 1 ≤ h.control.http_pending
    → IsLive h.control
    → IsLive (on_winhttp_completion s cb h).control
notice-IsLive s cb h i e p (inl r) =
    to_live (on_winhttp_completion s cb h).control (notice-IsOpen s cb h i e r p)
notice-IsLive s cb h i e p (inr (inl r)) = inr (inl (notice-IsClosing s cb h i r))
notice-IsLive s cb h i e p (inr (inr r)) = absurd (omega arith)

closing-IsLive :
    (s : System) (n : ℕ) (h : Handler)
    → h.control.http_pending ≡ 0
    → h.control.closings ≡ suc n
    → IsLive h.control
    → IsLive (on_winhttp_completion s handle_closing (end_closing n h)).control
closing-IsLive s n h z k (inl r) = absurd (omega arith)
closing-IsLive s zero h z k (inr (inl r)) = inr (inr (closing-IsClosing s h r z))
closing-IsLive s (suc n) h z k (inr (inl r)) = absurd (omega arith)
closing-IsLive s n h z k (inr (inr r)) = absurd (omega arith)

left_cover :
    (n : ℕ) (h : Handler)
    → h.control.iis_pending ≡ suc n
    → (h.control.done_async_completion ≡ true)
      ⊎ (((h.control.status ≡ Status.forwarder_done) × (1 ≤ h.control.iis_pending))
          ⊎ (2 ≤ h.control.iis_pending))
    → (is_done h.control.status ≡ true) ⊎ IsCovered n h.control
left_cover n h p (inl d) = inr (inl d)
left_cover n h p (inr (inl d)) = inl (ap is_done d.0)
left_cover n h p (inr (inr d)) = inr (inr (omega arith))

iis-IsLive :
    (s : System) (bytes n : ℕ) (hr : HResult) (h : Handler)
    → IsSound s h.control
    → s.close_handle ≡ none
    → h.control.iis_pending ≡ suc n
    → IsLive h.control
    → IsLive (on_async_completion s bytes hr (end_iis n h)).1.control
iis-IsLive s bytes n hr h law e p (inl r) =
    to_live (on_async_completion s bytes hr (end_iis n h)).1.control
      (on_async_completion-IsOpen s bytes hr (end_iis n h) e law r.0 r.1)
iis-IsLive s bytes n hr h law e p (inr (inl r)) =
    inr (inl (on_async_completion-IsShut s bytes hr (end_iis n h) law r.0))
iis-IsLive s bytes n hr h law e p (inr (inr r)) = inr (
    inr (
      on_async_completion-IsFinished s bytes n hr (end_iis n h) law (r.0, refl)
        (left_cover n h p r.1)))

add_reply-handler : (r : Reply × Handler) (rs : List Reply) → (add_reply r rs).handler ≡ r.1
add_reply-handler (Reply.notification_pending, h) rs = refl
add_reply-handler (_, h) rs = refl

-- In whatever order the events come, from a handler whose handle is open, with an operation or a
-- completion to come, every state is of one of the three kinds.
pub Step-IsLive : {q r : Request} → Step q r → IsLive q.handler.control → IsLive r.handler.control
Step-IsLive {q} (http_step s cb n i law e p) l = completion-IsLive s cb n q.handler i law e p l
Step-IsLive {q} (notice_step s cb i e p) l = notice-IsLive s cb q.handler i e p l
Step-IsLive {q} (closing_step s n e z k) l = closing-IsLive s n q.handler z k l
Step-IsLive {q} (iis_step s bytes n hr law e p) l =
    let h = end_iis n q.handler in
    rw (add_reply-handler (on_async_completion s bytes hr h) q.replies)
      (iis-IsLive s bytes n hr q.handler law e p l)
Step-IsLive {q} (disconnect_step b) l = disconnect-IsLive b q.handler l

pub Reach-IsLive : {q r : Request} → Reach q r → IsLive q.handler.control → IsLive r.handler.control
Reach-IsLive here l = l
Reach-IsLive (next p st) l = Step-IsLive st (Reach-IsLive p l)
