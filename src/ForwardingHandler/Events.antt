-- ===== src/ForwardingHandler/Events.antt =====
-- The entry points of FORWARDING_HANDLER in
-- AspNetCoreModuleV2/RequestHandler/outofprocess/forwardinghandler.cpp: `OnAsyncCompletion`, which
-- IIS calls, `OnWinHttpCompletionInternal`, which WinHTTP calls, and `TerminateRequest`, which
-- the client's disconnect calls. The methods of WEBSOCKET_HANDLER are not modelled: their calls
-- change nothing but the pointer.
use iisintegration.Prelude.{
  ℕ, ◌+◌, ◌%◌, ◌^◌, Bool, true, false, not, ◌&&◌, ◌||◌, none, some, ◌==◌, if◌then◌else◌,
}
use iisintegration.Prelude.Win32.{
  HResult, s_ok, e_outofmemory, e_unexpected, hresult_from_win32, win32_code, Win32Error, failed,
}
use iisintegration.ForwardingHandler.{
  Handler, Control, System, Status, Response, set_status, issue_iis, sub_dword,
}
use iisintegration.ForwardingHandler.Pump.{
  Outcome, on_sending_request, on_receiving_response, on_send_request_or_write_complete,
  on_status_headers_available, on_status_data_available, on_status_read_complete, fail, fail_client,
  await, proceed,
}

-- `dwInternetStatus`, with what `lpvStatusInformation` and `dwStatusInformationLength` tell
pub data Callback : Type 0 where
  sendrequest_complete write_complete headers_available : Callback
  data_available read_complete : ℕ → Callback
  request_error : Win32Error → Callback
  sending_request request_sent handle_closing connection_closed shutdown_complete unexpected :
      Callback

-- `REQUEST_NOTIFICATION_STATUS`
pub data Reply : Type 0 where
  notification_pending notification_continue notification_finish_request : Reply

abbrev pub is_done : Status → Bool
is_done Status.forwarder_done = true
is_done _ = false

abbrev pub is_websocket : Status → Bool
is_websocket Status.forwarder_received_websocket_response = true
is_websocket _ = false

abbrev pub is_invalid_response : HResult → Bool
is_invalid_response (hresult_from_win32 Win32Error.error_winhttp_invalid_server_response) = true
is_invalid_response _ = false

abbrev pub aborted : HResult
aborted = win32_code Win32Error.error_connection_aborted

abbrev pub is_dropped : Handler → Bool
is_dropped h = h.control.client_disconnected && not (is_done h.control.status)

-- `RemoveRequest`, of a pointer that has been assigned; so it is once the start has returned pending.
unfoldable pub remove_request : Handler → Handler
remove_request h = record h { control = record h.control { disconnect = false } }

-- `WinHttpCloseHandle`: a handle that is closed will be reported as closing.
abbrev pub close_http : System → Handler → Handler
close_http s h = record h {
  control = record h.control {
    http_handle_in_close = true;
    request = false;
    closings = elim s.close_handle [ none ↦ h.control.closings + 1 | some e ↦ h.control.closings ];
  };
}

abbrev pub close_request : System → Handler → Handler
close_request s h =
    if h.control.request && not h.control.http_handle_in_close then close_http s h else h

abbrev pub close_websocket : Handler → Handler
close_websocket h =
    if h.control.websocket && not h.control.websocket_handle_in_close
    then record h { control = record h.control { websocket_handle_in_close = true } }
    else h

-- The status that takes the place of the origin's.
abbrev pub error_response : Bool → HResult → Control → Response
error_response client hr c =
    if client || c.client_disconnected
    then (if not c.headers_received_and_set then Response.bad_request else c.response)
    else Response.bad_gateway 3 hr

-- `ResetConnection` after an invalid response
abbrev pub reset_server : Bool → HResult → Handler → Handler
reset_server client hr h =
    if not (client || h.control.client_disconnected)
      && is_invalid_response hr
      && not h.control.server_reset_conn
    then (let h1 = remove_request h in
        record h1 { control = record h1.control { server_reset_conn = true } })
    else h

abbrev pub set_error : Bool → HResult → Handler → Handler
set_error client hr h = record h {
  control = record h.control { has_error = true; response = error_response client hr h.control };
}

unfoldable pub fail_async : System → Bool → HResult → Handler → Handler
fail_async s client hr h =
    let h1 = set_status Status.forwarder_done h in
    let h2 =
      if not h1.control.has_error then reset_server client hr (set_error client hr h1) else h1 in
    close_request s (close_websocket h2)

-- After `Finished`: a status other than pending is returned once.
unfoldable pub answer : Reply → Handler → Reply × Handler
answer notification_pending h = (notification_pending, h)
answer r h =
    let h1 = remove_request h in
    if not h1.control.done_async_completion
    then (r, record h1 { control = record h1.control { done_async_completion = true } })
    else (notification_pending, h1)

-- The 101 response has been sent.
abbrev pub start_websocket : System → Handler → Handler
start_websocket s h =
    if not s.websocket_memory
    then fail_async s false e_outofmemory h
    else let h1 = record h {
      control = record h.control {
        websocket = true;
        handlers =
            if s.websocket_upgraded then (h.control.handlers + 1) % 2 ^ 32 else h.control.handlers;
      };
    } in
      if failed s.process_request
      then fail_async s false s.process_request h1
      else let h2 = close_http s h1 in
        elim s.close_handle [ none ↦ h2 | some e ↦ fail_async s false (hresult_from_win32 e) h2 ]

abbrev pub async_outcome : System → Outcome → Handler
async_outcome s o = if failed o.hr then fail_async s o.client_error o.hr o.handler else o.handler

abbrev pub async_done : System → Handler → Reply × Handler
async_done s h =
    if not h.control.request && not h.control.websocket
    then (if not h.control.finish_request
        then answer notification_pending (fail_async s false s_ok h)
        else if h.control.has_error
        then answer notification_finish_request h
        else answer notification_continue h)
    else answer notification_pending h

-- The switch on `m_RequestStatus`.
abbrev pub async_by_status : Status → System → ℕ → HResult → Handler → Reply × Handler
async_by_status Status.forwarder_received_websocket_response s n completion h =
    answer notification_pending (start_websocket s h)
async_by_status Status.forwarder_receiving_response s n completion h = answer notification_pending (
    async_outcome s
      (if failed completion then fail_client completion h else on_receiving_response s h))
async_by_status Status.forwarder_sending_request s n completion h =
    answer notification_pending (async_outcome s (on_sending_request s n completion h))
async_by_status _ s n completion h = async_done s h

unfoldable pub on_async_completion : System → ℕ → HResult → Handler → Reply × Handler
on_async_completion s n completion h =
    if is_dropped h
    then answer notification_pending (fail_async s false aborted h)
    else async_by_status h.control.status s n completion h

abbrev pub is_closing : Callback → Bool
is_closing handle_closing = true
is_closing _ = false

-- WINHTTP_CALLBACK_STATUS_HANDLE_CLOSING
abbrev pub on_handle_closing : Handler → Outcome
on_handle_closing h =
    let h1 = record h { control = record h.control { request = false } } in
    if not (is_done h.control.status)
    then record {
      hr = aborted;
      client_error = h.control.client_disconnected;
      another = false;
      handler = h1;
    }
    else proceed h1

abbrev pub on_callback : System → Callback → Handler → Outcome
on_callback s sendrequest_complete h = on_send_request_or_write_complete s h
on_callback s write_complete h = on_send_request_or_write_complete s h
on_callback s headers_available h = on_status_headers_available s h
on_callback s (data_available n) h = on_status_data_available s n h
on_callback s (read_complete n) h = on_status_read_complete s n h
on_callback s (request_error e) h = fail (hresult_from_win32 e) h
on_callback s sending_request h = await h
on_callback s request_sent h = await h
on_callback s handle_closing h = on_handle_closing h
on_callback s connection_closed h = fail aborted h
on_callback s shutdown_complete h = fail e_unexpected h
on_callback s unexpected h = fail e_unexpected h

unfoldable pub fail_winhttp : Bool → HResult → Handler → Handler
fail_winhttp client hr h =
    if not h.control.has_error
    then record h {
      control = record h.control {
        status = Status.forwarder_done;
        has_error = true;
        reset_connection = h.control.reset_connection || is_invalid_response hr;
        response = error_response client hr h.control;
      };
    }
    else h

abbrev pub post_finish : Handler → Handler
post_finish h = issue_iis (record h {
  control = record h.control { disconnect = false; finish_request = true; websocket = false };
})

abbrev pub finish_after_error : Bool → Handler → Handler
finish_after_error closing h =
    if closing
    then (let h1 = record h {
      control = record h.control { finish_request = h.control.handlers == 0 };
    } in
        if h.control.handlers == 0 then issue_iis h1 else h1)
    else h

-- After `Finished`: `closing` is `fHandleClosing`.
unfoldable pub conclude : System → Bool → Bool → Handler → Handler
conclude s closing another h =
    if closing && (h.control.handlers == 0)
    then post_finish h
    else if is_done h.control.status
    then finish_after_error closing (close_websocket (close_request s (remove_request h)))
    else if not another && not h.control.finish_request
    then issue_iis h
    else h

abbrev pub winhttp_outcome : System → Bool → Outcome → Handler
winhttp_outcome s closing o =
    conclude s closing o.another
      (if failed o.hr then fail_winhttp o.client_error o.hr o.handler else o.handler)

abbrev pub count_handle : Callback → Handler → Handler
count_handle cb h =
    if is_closing cb
    then record h { control = record h.control { handlers = sub_dword h.control.handlers 1 } }
    else h

unfoldable pub on_winhttp_completion : System → Callback → Handler → Handler
on_winhttp_completion s cb h =
    let h1 = count_handle cb h in
    if h1.control.finish_request
    then conclude s (is_closing cb) false h1
    else if is_dropped h1
    then conclude s (is_closing cb) false (fail_winhttp false aborted h1)
    else if is_websocket h1.control.status
    then conclude s (is_closing cb) true h1
    else winhttp_outcome s (is_closing cb) (on_callback s cb h1)

unfoldable pub terminate_request : Bool → Handler → Handler
terminate_request by_client h =
    if not h.control.http_handle_in_close
    then record h { control = record h.control { client_disconnected = by_client } }
    else h
