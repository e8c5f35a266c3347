-- ===== src/ForwardingHandler/Replies.antt =====
-- The replies that IIS is given by FORWARDING_HANDLER, in
-- AspNetCoreModuleV2/RequestHandler/outofprocess/forwardinghandler.cpp.
use iisintegration.Prelude.{
  ℕ, suc, ap, ◌∙◌, sym, List, length, ◌≡◌, refl, inl, inr, Bool, true, false, not, ◌&&◌, if-both,
  arith, if◌then◌else◌,
}
use iisintegration.Prelude.Win32.{failed, HResult, s_ok}
use iisintegration.ForwardingHandler.{Handler, Control, System, Status}
use iisintegration.ForwardingHandler.Effect.{
  Attempt, Effect, IsSound, fails, starts_http, attempts, starts_iis, starts_nothing,
}
use iisintegration.ForwardingHandler.PumpEffect.{on_sending_request-Attempt}
use iisintegration.ForwardingHandler.Pump.{Outcome, on_sending_request}
use iisintegration.ForwardingHandler.Callbacks.{on_callback-Effect}
use iisintegration.ForwardingHandler.Running.{receive-Attempt, IsLive, IsPlain, NoWebsocket}
use iisintegration.ForwardingHandler.Liveness.{Reach-IsLive, IsCompletion-is_closing}
use iisintegration.ForwardingHandler.Notices.{notice_closing}
use iisintegration.ForwardingHandler.Steps.{
  IsNotice, Request, Step, Reach, http_step, notice_step, closing_step, iis_step, disconnect_step,
  here, next, end_http, end_iis, end_closing, add_reply,
}
use iisintegration.ForwardingHandler.Events.{
  Callback, Reply, notification_pending, async_by_status, async_outcome, async_done, fail_async,
  on_callback, on_winhttp_completion, winhttp_outcome, fail_winhttp, conclude, remove_request,
  is_dropped, on_handle_closing, count_handle, is_websocket, is_closing, aborted, terminate_request,
  answer, on_async_completion, sending_request, request_sent, handle_closing,
}

abbrev pub is_answered : Handler → Bool
is_answered h = h.control.done_async_completion

-- A reply other than pending is given only to a handler that has given none.
abbrev Once : Bool → Reply × Handler → Type 0
Once b (notification_pending, h) = is_answered h ≡ b
Once b (_, h) = (b ≡ false) × (is_answered h ≡ true)

fail_async-is_answered :
    (s : System) (client : Bool) (hr : HResult) (h : Handler)
    → is_answered (fail_async s client hr h) ≡ is_answered h
unfolding fail_async remove_request
fail_async-is_answered s client hr h = ground arith

async_outcome-is_answered :
    (s : System) (c : Control) (o : Outcome)
    → Attempt c o
    → is_answered (async_outcome s o) ≡ c.done_async_completion
async_outcome-is_answered s c o (fails f x k m p q) =
    rw f (fail_async-is_answered s o.client_error o.hr o.handler ∙ k.4)
async_outcome-is_answered s c o (starts_http f x k m r p q) = rw f k.4

answer-Once : (r : Reply) (h : Handler) → Once (is_answered h) (answer r h)
unfolding answer remove_request
answer-Once notification_pending h = refl
answer-Once Reply.notification_continue h = ground arith
answer-Once Reply.notification_finish_request h = ground arith

async_done-Once : (s : System) (h : Handler) → Once (is_answered h) (async_done s h)
unfolding answer
async_done-Once s h =
    if-both (Once (is_answered h)) (not h.control.request && not h.control.websocket) _ _
      (λ _.
        if-both (Once (is_answered h)) (not h.control.finish_request) _ _
          (λ _. fail_async-is_answered s false s_ok h)
          (λ _.
            if-both (Once (is_answered h)) h.control.has_error _ _
              (λ _. answer-Once Reply.notification_finish_request h)
              (λ _. answer-Once Reply.notification_continue h)))
      (λ _. refl)

async_by_status-Once :
    (st : Status) (s : System) (n : ℕ) (completion : HResult) (h : Handler)
    → h.control.websocket_enabled ≡ false
    → IsSound s h.control
    → IsPlain st
    → Once (is_answered h) (async_by_status st s n completion h)
unfolding answer
async_by_status-Once Status.forwarder_sending_request s n completion h w law p =
    async_outcome-is_answered s h.control (on_sending_request s n completion h)
      (on_sending_request-Attempt s h w law n completion)
async_by_status-Once Status.forwarder_receiving_response s n completion h w law p =
    async_outcome-is_answered s h.control _ (receive-Attempt s completion h w law)
async_by_status-Once Status.forwarder_done s n completion h w law p = async_done-Once s h
async_by_status-Once _ s n completion h w law p = elim p [ ]

on_async_completion-Once :
    (s : System) (n : ℕ) (completion : HResult) (h : Handler)
    → NoWebsocket h.control
    → IsSound s h.control
    → Once (is_answered h) (on_async_completion s n completion h)
unfolding on_async_completion answer
on_async_completion-Once s n completion h w law =
    if-both (Once (is_answered h)) (is_dropped h) _ _
      (λ _. fail_async-is_answered s false aborted h)
      (λ _. async_by_status-Once h.control.status s n completion h w.1 law w.2)

conclude-is_answered :
    (s : System) (closing another : Bool) (h : Handler)
    → is_answered (conclude s closing another h) ≡ is_answered h
unfolding conclude remove_request
conclude-is_answered s closing another h = ground arith

fail_winhttp-is_answered :
    (client : Bool) (hr : HResult) (h : Handler)
    → is_answered (fail_winhttp client hr h) ≡ is_answered h
unfolding fail_winhttp
fail_winhttp-is_answered client hr h = ground arith

winhttp_outcome-is_answered :
    (s : System) (closing : Bool) (o : Outcome)
    → is_answered (winhttp_outcome s closing o) ≡ is_answered o.handler
winhttp_outcome-is_answered s closing o =
    conclude-is_answered s closing o.another _
    ∙ if-both (λ (g : Handler). is_answered g ≡ is_answered o.handler) (failed o.hr) _ _
        (λ _. fail_winhttp-is_answered o.client_error o.hr o.handler) (λ _. refl)

on_winhttp_completion-is_answered :
    (s : System) (cb : Callback) (h : Handler)
    → is_answered (on_callback s cb (count_handle cb h)).handler ≡ is_answered (count_handle cb h)
    → is_answered (on_winhttp_completion s cb h) ≡ is_answered h
unfolding on_winhttp_completion
on_winhttp_completion-is_answered s cb h e =
    let g = count_handle cb h in
    let same : is_answered g ≡ is_answered h =
      if-both (λ (r : Handler). is_answered r ≡ is_answered h) (is_closing cb) _ _ (λ _. refl)
        (λ _. refl) in
    if-both (λ (r : Handler). is_answered r ≡ is_answered h) g.control.finish_request _ _
      (λ _. conclude-is_answered s (is_closing cb) false g ∙ same)
      (λ _.
        if-both (λ (r : Handler). is_answered r ≡ is_answered h) (is_dropped g) _ _
          (λ _.
            conclude-is_answered s (is_closing cb) false (fail_winhttp false aborted g)
            ∙ fail_winhttp-is_answered false aborted g
            ∙ same)
          (λ _.
            if-both (λ (r : Handler). is_answered r ≡ is_answered h) (is_websocket g.control.status)
              _ _ (λ _. conclude-is_answered s (is_closing cb) true g ∙ same)
              (λ _. winhttp_outcome-is_answered s (is_closing cb) (on_callback s cb g) ∙ e ∙ same)))

Effect-is_answered :
    (c : Control) (o : Outcome) → Effect c o → is_answered o.handler ≡ c.done_async_completion
Effect-is_answered c o (attempts (fails f x k m p q)) = k.4
Effect-is_answered c o (attempts (starts_http f x k m r p q)) = k.4
Effect-is_answered c o (starts_iis f x k m p q) = k.4
Effect-is_answered c o (starts_nothing f x k m p q) = k.4

abbrev pub count : Bool → ℕ
count b = if b then 1 else 0

-- As many replies other than pending as the handler says.
abbrev pub IsAnswered : Request → Type 0
IsAnswered q = length q.replies ≡ count (is_answered q.handler)

add_reply-IsAnswered :
    (b : Bool) (r : Reply × Handler) (rs : List Reply)
    → Once b r
    → length rs ≡ count b
    → IsAnswered (add_reply r rs)
add_reply-IsAnswered b (notification_pending, h) rs o e = e ∙ ap count (sym o)
add_reply-IsAnswered b (Reply.notification_continue, h) rs o e =
    rw (o.1) (ap suc (e ∙ ap count (o.0)))
add_reply-IsAnswered b (Reply.notification_finish_request, h) rs o e =
    rw (o.1) (ap suc (e ∙ ap count (o.0)))

NoWebsocket-IsLive : (c : Control) → IsLive c → NoWebsocket c
NoWebsocket-IsLive c (inl r) = r.0.0
NoWebsocket-IsLive c (inr (inl r)) = r.0.0
NoWebsocket-IsLive c (inr (inr r)) = r.0.0

on_notice-is_answered :
    (s : System) (cb : Callback) (h : Handler)
    → IsNotice cb
    → is_answered (on_callback s cb h).handler ≡ is_answered h
on_notice-is_answered s sending_request h i = refl
on_notice-is_answered s request_sent h i = refl
on_notice-is_answered s _ h i = elim i [ ]

on_winhttp_completion-open :
    (s : System) (cb : Callback) (h : Handler)
    → is_closing cb ≡ false
    → is_answered (on_callback s cb h).handler ≡ is_answered h
    → is_answered (on_winhttp_completion s cb h) ≡ is_answered h
on_winhttp_completion-open s cb h k e = on_winhttp_completion-is_answered s cb h (rw k e)

terminate_request-is_answered :
    (b : Bool) (h : Handler) → is_answered (terminate_request b h) ≡ is_answered h
unfolding terminate_request
terminate_request-is_answered b h = ground arith

on_handle_closing-is_answered :
    (h : Handler) → is_answered (on_handle_closing h).handler ≡ is_answered h
on_handle_closing-is_answered h = ground arith

Step-IsAnswered :
    {q r : Request} → Step q r → IsLive q.handler.control → IsAnswered q → IsAnswered r
Step-IsAnswered {q} (http_step s cb n i law e p) l a =
    let h = end_http n q.handler in
    a
    ∙ ap count (
        sym (
          on_winhttp_completion-open s cb h (IsCompletion-is_closing cb i) (
            Effect-is_answered h.control (on_callback s cb h)
              (on_callback-Effect s cb h i ((NoWebsocket-IsLive q.handler.control l).1) law))))
Step-IsAnswered {q} (notice_step s cb i e p) l a =
    a
    ∙ ap count (
        sym (
          on_winhttp_completion-open s cb q.handler (notice_closing cb i)
            (on_notice-is_answered s cb q.handler i)))
Step-IsAnswered {q} (closing_step s n e z k) l a =
    a
    ∙ ap count (
        sym (
          on_winhttp_completion-is_answered s handle_closing (end_closing n q.handler) (
            on_handle_closing-is_answered (count_handle handle_closing (end_closing n q.handler)))))
Step-IsAnswered {q} (iis_step s bytes n hr law e p) l a =
    let h = end_iis n q.handler in
    add_reply-IsAnswered (is_answered h) (on_async_completion s bytes hr h) q.replies
      (on_async_completion-Once s bytes hr h (NoWebsocket-IsLive q.handler.control l) law) a
Step-IsAnswered {q} (disconnect_step b) l a =
    a ∙ ap count (sym (terminate_request-is_answered b q.handler))

pub Reach-IsAnswered :
    {q r : Request} → Reach q r → IsLive q.handler.control → IsAnswered q → IsAnswered r
Reach-IsAnswered here l a = a
Reach-IsAnswered (next p st) l a = Step-IsAnswered st (Reach-IsLive p l) (Reach-IsAnswered p l a)
