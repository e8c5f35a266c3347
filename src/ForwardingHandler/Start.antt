-- ===== src/ForwardingHandler/Start.antt =====
-- The start of a request in FORWARDING_HANDLER, in
-- AspNetCoreModuleV2/RequestHandler/outofprocess/forwardinghandler.cpp: the constructor,
-- `OnExecuteRequestHandler` and `CreateWinHttpRequest`. A disconnect that comes while they run is not
-- modelled.
use iisintegration.Prelude.{
  ℕ, Bool, true, false, not, ◌&&◌, List, [], ◌∷◌, Option, none, some, ◌==◌, if◌then◌else◌,
}
use iisintegration.Prelude.Win32.{
  HResult, e_invalidarg, e_outofmemory, hresult_from_win32, Win32Error, failed,
}
use iisintegration.ForwardingHandler.{Handler, Status, Response, infinite, set_status, issue_http}
use iisintegration.ForwardingHandler.Events.{
  Reply, notification_pending, notification_continue, notification_finish_request, remove_request,
}

-- What the calls out of the start answer, in the order of the code. `content_length` is what `atol`
-- makes of the header, as a DWORD; `headers_size` is the length of the headers that `GetHeaders` builds.
pub record Startup : Type 0 where
  pub connected : Bool
  pub application : Bool
  pub get_process : HResult
  pub process : Bool
  pub connection : Bool
  pub split_url : HResult
  pub escape_abs_path : HResult
  pub min_response_buffer : ℕ
  pub websocket_configured : Bool
  pub upgrade_header : Bool
  pub copy_verb : HResult
  pub http_version : HResult
  pub open_request : Option Win32Error
  pub set_timeouts : Option Win32Error
  pub set_drain_size : Option Win32Error
  pub set_header_size : Option Win32Error
  pub disable_features : Option Win32Error
  pub set_callback : Option Win32Error
  pub get_headers : HResult
  pub headers_size : ℕ
  pub stored_context : Bool
  pub context_memory : Bool
  pub store_context : HResult
  pub content_length : Option ℕ
  pub transfer_encoding : Bool
  pub upgrade_option : Option Win32Error
  pub send_request : Option Win32Error
  pub error_page_disabled : Bool

-- The constructor leaves the other fields as it finds them in `memory`. No operation is pending.
unfoldable pub new_handler : Handler → Handler
new_handler memory = record memory {
  control = record memory.control {
    status = Status.forwarder_start;
    client_disconnected = false;
    headers_received_and_set = false;
    finish_request = false;
    has_error = false;
    done_async_completion = false;
    websocket_enabled = false;
    http_handle_in_close = false;
    websocket_handle_in_close = false;
    server_reset_conn = false;
    websocket = false;
    disconnect_assigned = false;
    handlers = 1;
    response = Response.origin_response;
    http_pending = 0;
    iis_pending = 0;
    closings = 0;
  };
  bytes_to_receive = 0;
  bytes_to_send = 0;
  written = [];
}

-- How the start ends: at `Failure`, with `fFailedToStartKestrel`, or at `Finished`, with the reply.
pub data Exit : Type 0 where
  failure : HResult → Bool → Exit
  finished : Reply → Exit

abbrev pub give_up : HResult → Handler → Exit × Handler
give_up hr h = (failure hr false, h)

abbrev pub need : HResult → (Handler → Exit × Handler) → Handler → Exit × Handler
need hr k h = if failed hr then give_up hr h else k h

abbrev pub need_process : Startup → (Handler → Exit × Handler) → Handler → Exit × Handler
need_process u k h =
    if failed u.get_process
    then (failure u.get_process true, h)
    else if not u.process
    then (failure (hresult_from_win32 Win32Error.error_create_failed) true, h)
    else if not u.connection
    then give_up (hresult_from_win32 Win32Error.error_invalid_handle) h
    else k h

abbrev pub first_error : List (Option Win32Error) → HResult → HResult
first_error [] last = last
first_error (none ∷ es) last = first_error es last
first_error (some e ∷ es) last = hresult_from_win32 e

abbrev pub set_request : Bool → Handler → Handler
set_request b h = record h { control = record h.control { request = b } }

unfoldable pub create_winhttp_request : Startup → Handler → HResult × Handler
create_winhttp_request u h =
    if failed u.copy_verb
    then (u.copy_verb, h)
    else if failed u.http_version
    then (u.http_version, h)
    else elim u.open_request [
      | some e ↦ (hresult_from_win32 e, set_request false h)
      | none ↦ (
        first_error
            (u.set_timeouts ∷ u.set_drain_size ∷ u.set_header_size ∷ u.disable_features
              ∷ u.set_callback ∷ [])
            u.get_headers,
        set_request true h,
      )
    ]

abbrev pub mark_websocket : Startup → Handler → Handler
mark_websocket u h = record h {
  control = record h.control {
    websocket_enabled =
        if u.websocket_configured && u.upgrade_header then true else h.control.websocket_enabled;
  };
  min_buffer_limit = u.min_response_buffer;
}

abbrev pub set_disconnect : Bool → Handler → Handler
set_disconnect b h = record h {
  control = record h.control { disconnect = b; disconnect_assigned = true };
}

-- The callback contract with IIS: the connection's context, or a new one.
abbrev pub need_context : Startup → (Handler → Exit × Handler) → Handler → Exit × Handler
need_context u k h =
    if u.stored_context
    then k (set_disconnect true h)
    else if not u.context_memory
    then give_up e_outofmemory (set_disconnect false h)
    else need u.store_context k (set_disconnect true h)

-- `WinHttpSendRequest`
abbrev pub send_request : Startup → Handler → Exit × Handler
send_request u h =
    let h1 = record h { last_send = u.headers_size } in
    elim u.send_request [
      | some e ↦ give_up (hresult_from_win32 e) h1
      | none ↦ (finished notification_pending, issue_http h1)
    ]

abbrev pub upgrade : Startup → Handler → Exit × Handler
upgrade u h =
    if h.control.websocket_enabled
    then (elim u.upgrade_option [
      | some e ↦ (finished notification_continue, h)
      | none ↦ send_request u h
    ])
    else send_request u h

abbrev pub reset_error : HResult
reset_error = hresult_from_win32 Win32Error.wsaeconnreset

abbrev pub send_with_length : Startup → Handler → Exit × Handler
send_with_length u h = elim u.content_length [
  | some n ↦
      let h1 = record h { bytes_to_receive = n } in
      if n == infinite then give_up reset_error h1 else upgrade u h1
  | none ↦ upgrade u (if u.transfer_encoding then record h { bytes_to_receive = infinite } else h)
]

abbrev pub begin : Startup → Handler → Exit × Handler
begin u h =
    if not h.control.request
    then give_up reset_error h
    else send_with_length u (set_status Status.forwarder_sending_request h)

abbrev pub create : Startup → Handler → Exit × Handler
create u h =
    let (hr, h1) = create_winhttp_request u (mark_websocket u h) in
    need hr (need_context u (begin u)) h1

abbrev pub prepare : Startup → Handler → Exit × Handler
prepare u h =
    if not u.connected
    then give_up reset_error h
    else if not u.application
    then give_up e_invalidarg h
    else need_process u (need u.split_url (need u.escape_abs_path (create u))) h

abbrev pub is_reset : HResult → Bool
is_reset (hresult_from_win32 Win32Error.wsaeconnreset) = true
is_reset _ = false

abbrev pub start_response : Startup → HResult → Bool → Response
start_response u hr start_failed =
    if is_reset hr
    then Response.bad_request
    else if start_failed && not u.error_page_disabled
    then Response.bad_gateway 5 hr
    else Response.bad_gateway 3 hr

-- `RemoveRequest`, of a pointer that may not have been assigned. `none` is a call through the value that the
-- constructor has left in it.
unfoldable pub remove_start : Handler → Option Handler
unfolding remove_request
remove_start h =
    if h.control.disconnect && not h.control.disconnect_assigned
    then none
    else some (remove_request h)

abbrev pub refuse : Response → Option Handler → Option (Reply × Handler)
refuse answer none = none
refuse answer (some h) =
    some
      (notification_finish_request, record h { control = record h.control { response = answer } })

abbrev pub leave : Startup → Exit × Handler → Option (Reply × Handler)
unfolding remove_start
leave u (finished r, h) = some (r, h)
leave u (failure hr start_failed, h) =
    refuse (start_response u hr start_failed) (remove_start (set_status Status.forwarder_done h))

unfoldable pub on_execute_request_handler : Startup → Handler → Option (Reply × Handler)
unfolding remove_start
on_execute_request_handler u h = leave u (prepare u h)
