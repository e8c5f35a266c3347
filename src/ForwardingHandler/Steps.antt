-- ===== src/ForwardingHandler/Steps.antt =====
-- The life of a request in FORWARDING_HANDLER, in
-- AspNetCoreModuleV2/RequestHandler/outofprocess/forwardinghandler.cpp: the events that the outside
-- may bring, in any order that WinHTTP and IIS allow.
use iisintegration.Prelude.{ℕ, suc, ◌≤◌, ◌≡◌, List, ◌∷◌, Bool, true, none}
use iisintegration.Prelude.Win32.{HResult, failed, hresult_from_win32}
use iisintegration.ForwardingHandler.{Handler, System}
use iisintegration.ForwardingHandler.Effect.{IsSound}
use iisintegration.ForwardingHandler.Events.{
  Callback, Reply, request_error, sending_request, request_sent, handle_closing,
  on_winhttp_completion, on_async_completion, terminate_request, notification_pending,
}

-- The callbacks that report the end of an operation.
abbrev pub IsCompletion : Callback → Type 0
IsCompletion (request_error e) = failed (hresult_from_win32 e) ≡ true
IsCompletion sending_request = ⊥
IsCompletion request_sent = ⊥
IsCompletion handle_closing = ⊥
IsCompletion Callback.connection_closed = ⊥
IsCompletion Callback.shutdown_complete = ⊥
IsCompletion Callback.unexpected = ⊥
IsCompletion _ = Unit

-- The callbacks that tell how an operation is getting on.
abbrev pub IsNotice : Callback → Type 0
IsNotice sending_request = Unit
IsNotice request_sent = Unit
IsNotice _ = ⊥

-- The handler, and the replies other than pending that IIS has been given, the last first.
pub record Request : Type 0 where
  pub handler : Handler
  pub replies : List Reply

abbrev pub add_reply : Reply × Handler → List Reply → Request
add_reply (notification_pending, h) rs = record { handler = h; replies = rs }
add_reply (r, h) rs = record { handler = h; replies = r ∷ rs }

abbrev pub end_http : ℕ → Handler → Handler
end_http n h = record h { control = record h.control { http_pending = n } }

abbrev pub end_iis : ℕ → Handler → Handler
end_iis n h = record h { control = record h.control { iis_pending = n } }

abbrev pub end_closing : ℕ → Handler → Handler
end_closing n h = record h { control = record h.control { closings = n } }

-- WinHTTP reports the end of each operation once, and a handle's closing after all of them. Handles
-- are closed with success.
pub data Step (q : Request) : Request → Type 0 where
  http_step :
      (s : System) (cb : Callback) (n : ℕ)
      → IsCompletion cb
      → IsSound s q.handler.control
      → s.close_handle ≡ none
      → q.handler.control.http_pending ≡ suc n
      → Step q (record q { handler = on_winhttp_completion s cb (end_http n q.handler) })
  notice_step :
      (s : System) (cb : Callback)
      → IsNotice cb
      → s.close_handle ≡ none
      → 1 ≤ q.handler.control.http_pending
      → Step q (record q { handler = on_winhttp_completion s cb q.handler })
  closing_step :
      (s : System) (n : ℕ)
      → s.close_handle ≡ none
      → q.handler.control.http_pending ≡ 0
      → q.handler.control.closings ≡ suc n
      → Step q
          (record q { handler = on_winhttp_completion s handle_closing (end_closing n q.handler) })
  iis_step :
      (s : System) (bytes n : ℕ) (hr : HResult)
      → IsSound s q.handler.control
      → s.close_handle ≡ none
      → q.handler.control.iis_pending ≡ suc n
      → Step q (add_reply (on_async_completion s bytes hr (end_iis n q.handler)) q.replies)
  disconnect_step :
      (by_client : Bool) → Step q (record q { handler = terminate_request by_client q.handler })

pub data Reach (q : Request) : Request → Type 0 where
  here : Reach q q
  next : {r t : Request} → Reach q r → Step r t → Reach q t
