-- ===== src/ForwardingHandler/Effect.antt =====
-- What the functions of `Pump` do to the fields that say how far a request without a WebSocket is:
-- they fail, start an operation of WinHTTP, ask IIS for a completion, or leave it at that.
use iisintegration.Prelude.{
  ◌+◌, ◌≡◌, refl, ◌⊎◌, inl, inr, Bool, true, false, Option, none, some, arith,
}
use iisintegration.Prelude.Win32.{failed, HResult, Win32Error, hresult_from_win32}
use iisintegration.ForwardingHandler.{Handler, Control, System, Status, issue_iis}
use iisintegration.ForwardingHandler.Pump.{Outcome, start, await, proceed}

abbrev pub Keeps : Control → Control → Type 0
Keeps c d =
    (d.closings ≡ c.closings)
    × (d.handlers ≡ c.handlers)
    × (d.finish_request ≡ c.finish_request)
    × (d.has_error ≡ c.has_error)
    × (d.done_async_completion ≡ c.done_async_completion)
    × (d.http_handle_in_close ≡ c.http_handle_in_close)
    × (d.request ≡ c.request)
    × (d.websocket ≡ c.websocket)
    × (d.client_disconnected ≡ c.client_disconnected)
    × (d.websocket_enabled ≡ false)

abbrev pub Moves : Control → Control → Type 0
Moves c d =
    (d.status ≡ c.status)
    ⊎ ((d.status ≡ Status.forwarder_receiving_response) ⊎ (d.status ≡ Status.forwarder_done))

abbrev pub Advances : Control → Control → Type 0
Advances c d = (d.status ≡ c.status) ⊎ (d.status ≡ Status.forwarder_receiving_response)

-- A call of WinHTTP succeeds only on an open handle, and has an error when it fails.
abbrev pub Answers : Control → Option Win32Error → Type 0
Answers c none = c.request ≡ true
Answers c (some e) = failed (hresult_from_win32 e) ≡ true

abbrev pub IsSound : System → Control → Type 0
IsSound s c =
    Answers c s.write_data
    × Answers c s.receive_response
    × Answers c s.query_data_available
    × Answers c s.read_data

-- An operation of WinHTTP has been started, or the function fails.
pub data Attempt (c : Control) (o : Outcome) : Type 0 where
  fails :
      failed o.hr ≡ true
      → o.another ≡ false
      → Keeps c o.handler.control
      → Moves c o.handler.control
      → o.handler.control.http_pending ≡ c.http_pending
      → o.handler.control.iis_pending ≡ c.iis_pending
      → Attempt c o
  starts_http :
      failed o.hr ≡ false
      → o.another ≡ true
      → Keeps c o.handler.control
      → Advances c o.handler.control
      → c.request ≡ true
      → o.handler.control.http_pending ≡ c.http_pending + 1
      → o.handler.control.iis_pending ≡ c.iis_pending
      → Attempt c o

pub data Effect (c : Control) (o : Outcome) : Type 0 where
  attempts : Attempt c o → Effect c o
  starts_iis :
      failed o.hr ≡ false
      → o.another ≡ true
      → Keeps c o.handler.control
      → Moves c o.handler.control
      → o.handler.control.http_pending ≡ c.http_pending
      → o.handler.control.iis_pending ≡ c.iis_pending + 1
      → Effect c o
  starts_nothing :
      failed o.hr ≡ false
      → o.another ≡ false
      → Keeps c o.handler.control
      → Moves c o.handler.control
      → o.handler.control.http_pending ≡ c.http_pending
      → o.handler.control.iis_pending ≡ c.iis_pending
      → Effect c o

-- The fields of data have no part in this.
abbrev pub Same : Control → Control → Type 0
Same c d =
    Keeps c d × Moves c d × (d.http_pending ≡ c.http_pending) × (d.iis_pending ≡ c.iis_pending)

pub fail-Attempt :
    (c : Control) (hr : HResult) (client : Bool) (h : Handler)
    → failed hr ≡ true
    → Same c h.control
    → Attempt c (record { hr = hr; client_error = client; another = false; handler = h })
fail-Attempt c hr client h f (k, m, p, q) = fails f refl k m p q

pub fail-Effect :
    (c : Control) (hr : HResult) (client : Bool) (h : Handler)
    → failed hr ≡ true
    → Same c h.control
    → Effect c (record { hr = hr; client_error = client; another = false; handler = h })
fail-Effect c hr client h f e = attempts (fail-Attempt c hr client h f e)

pub start-Attempt :
    (c : Control) (a : Option Win32Error) (h : Handler)
    → Answers c a
    → Same c h.control
    → Advances c h.control
    → Attempt c (start a h)
start-Attempt c none h r (k, m, p, q) n = starts_http refl refl k n r (omega arith) q
start-Attempt c (some e) h r (k, m, p, q) n = fails r refl k m p q

pub iis-Effect :
    (c : Control) (hr : HResult) (h : Handler)
    → failed hr ≡ false
    → Same c h.control
    → Effect c (record (await (issue_iis h)) { hr = hr })
iis-Effect c hr h f (k, m, p, q) = starts_iis f refl k m p (omega arith)

pub proceed-Effect :
    (c : Control) (hr : HResult) (h : Handler)
    → failed hr ≡ false
    → Same c h.control
    → Effect c (record (proceed h) { hr = hr })
proceed-Effect c hr h f (k, m, p, q) = starts_nothing f refl k m p q

-- `h` with any data and the status `st`.
pub Same-status :
    (c : Control) (st : Status)
    → c.websocket_enabled ≡ false
    → (st ≡ c.status) ⊎ ((st ≡ Status.forwarder_receiving_response) ⊎ (st ≡ Status.forwarder_done))
    → Same c (record c { status = st })
Same-status c st w m = ((refl, refl, refl, refl, refl, refl, refl, refl, refl, w), m, refl, refl)

pub Same-refl : (c : Control) → c.websocket_enabled ≡ false → Same c c
Same-refl c w = Same-status c c.status w (inl refl)

pub Same-receiving :
    (c : Control)
    → c.websocket_enabled ≡ false
    → Same c (record c { status = Status.forwarder_receiving_response })
Same-receiving c w = Same-status c Status.forwarder_receiving_response w (inr (inl refl))

pub Same-done :
    (c : Control)
    → c.websocket_enabled ≡ false
    → Same c (record c { status = Status.forwarder_done })
Same-done c w = Same-status c Status.forwarder_done w (inr (inr refl))
