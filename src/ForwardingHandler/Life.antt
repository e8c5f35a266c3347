-- ===== src/ForwardingHandler/Life.antt =====
-- The life of a request without a WebSocket in FORWARDING_HANDLER, in
-- AspNetCoreModuleV2/RequestHandler/outofprocess/forwardinghandler.cpp, from its start.
use iisintegration.Prelude.{
  ℕ, ◌+◌, ◌≤◌, ◌≡◌, refl, ◌⊎◌, inl, inr, true, false, ◌&&◌, [], length, arith, some, subst,
}
use iisintegration.ForwardingHandler.{Handler}
use iisintegration.ForwardingHandler.Events.{notification_pending}
use iisintegration.ForwardingHandler.Running.{IsRunning, IsLive}
use iisintegration.ForwardingHandler.Liveness.{Reach-IsLive}
use iisintegration.ForwardingHandler.Replies.{IsAnswered, Reach-IsAnswered, is_answered}
use iisintegration.ForwardingHandler.Started.{IsStarted, start-IsStarted}
use iisintegration.ForwardingHandler.Steps.{Request, Reach}
use iisintegration.ForwardingHandler.Start.{Startup, new_handler, on_execute_request_handler}

-- The request as the start leaves it.
abbrev pub started : Handler → Request
started h = record { handler = h; replies = [] }

-- What is to come for the handler.
abbrev pub outstanding : Handler → ℕ
outstanding h = h.control.http_pending + h.control.iis_pending + h.control.closings

count-length :
    (q : Request)
    → IsAnswered q
    → (is_answered q.handler ≡ true) ⊎ (1 ≤ outstanding q.handler)
    → (length q.replies ≡ 1) ⊎ ((length q.replies ≡ 0) × (1 ≤ outstanding q.handler))
count-length q a l = ground arith

IsLive-outstanding : (h : Handler) → IsLive h.control → (is_answered h ≡ true) ⊎ (1 ≤ outstanding h)
IsLive-outstanding h (inl r) = inr (omega arith)
IsLive-outstanding h (inr (inl r)) = inr (omega arith)
IsLive-outstanding h (inr (inr r)) = ground arith

IsLive-quiet :
    (q : Request)
    → IsLive q.handler.control
    → IsAnswered q
    → 1 ≤ length q.replies
    → (q.handler.control.http_pending ≡ 0)
      × (q.handler.control.closings ≡ 0)
      × (q.handler.control.request ≡ false)
IsLive-quiet q (inl r) a l = absurd (ground arith)
IsLive-quiet q (inr (inl r)) a l = absurd (ground arith)
IsLive-quiet q (inr (inr r)) a l = (r.0.6, r.0.3, r.0.2)

first-IsAnswered : (q : Request) → IsRunning q.handler.control → q.replies ≡ [] → IsAnswered q
first-IsAnswered q r e = rw (e, r.0.6) refl

module _ (u : Startup) (memory h : Handler)
    (w : (u.websocket_configured && u.upgrade_header) ≡ false)
    (p : on_execute_request_handler u (new_handler memory) ≡ some (notification_pending, h))
    (r : Request) (run : Reach (started h) r) where
  first-IsRunning : IsRunning h.control
  first-IsRunning = subst IsStarted p (start-IsStarted u memory w)

  run-IsLive : IsLive r.handler.control
  run-IsLive = Reach-IsLive run (inl first-IsRunning)

  run-IsAnswered : IsAnswered r
  run-IsAnswered =
      Reach-IsAnswered run (inl first-IsRunning) (first-IsAnswered (started h) first-IsRunning refl)

  -- When the start of a request without a WebSocket has returned pending, then in every state that
  -- the events of WinHTTP, IIS and the client lead to, in any order, either IIS has been given one
  -- reply other than pending, or it has been given none and an event is still to come: the end of an
  -- operation of WinHTTP, a completion of IIS, or the closing of the handle. No request is left
  -- hanging.
  pub answered_or_outstanding :
      (length r.replies ≡ 1) ⊎ ((length r.replies ≡ 0) × (1 ≤ outstanding r.handler))
  answered_or_outstanding = count-length r run-IsAnswered (IsLive-outstanding r.handler run-IsLive)

  -- When the start of a request without a WebSocket has returned pending, then in every state that
  -- the events lead to in which IIS has been given a reply other than pending, no operation of WinHTTP is
  -- outstanding, no closing of a handle is, and the request handle is closed: WinHTTP calls the
  -- handler no more.
  pub quiet_after_reply :
      1 ≤ length r.replies
      → (r.handler.control.http_pending ≡ 0)
        × (r.handler.control.closings ≡ 0)
        × (r.handler.control.request ≡ false)
  quiet_after_reply a = IsLive-quiet r run-IsLive run-IsAnswered a
