-- ===== src/ForwardingHandler.antt =====
-- FORWARDING_HANDLER of AspNetCoreModuleV2/RequestHandler/outofprocess/forwardinghandler.cpp and
-- forwardinghandler.h: the state of one request. `Pump` has the functions that move the data, and
-- `Events` the entry points that IIS, WinHTTP and the client call. Each entry point runs under the
-- lock of the request, hence is one function of the state.
pub mod Chunk
pub mod Framing
pub mod Pump
pub mod Events
pub mod Start
pub mod Steps
pub mod Effect
pub mod PumpEffect
pub mod Running
pub mod Closing
pub mod Callbacks
pub mod Notices
pub mod Replies
pub mod Started
pub mod Life
pub mod Behaviour
pub mod Liveness
mod Tests
use iisintegration.Prelude.{ℕ, ◌+◌, ◌-◌, ◌%◌, ◌^◌, Bool, true, false, List, [], Option, none}
use iisintegration.Prelude.Win32.{HResult, Win32Error, failed}

-- `FORWARDING_REQUEST_STATUS`
pub data Status : Type 0 where
  forwarder_start forwarder_sending_request forwarder_receiving_response
        forwarder_received_websocket_response forwarder_done forwarder_finish_request :
      Status

-- The status of the response to the client: the one set from the origin's headers, or the one that
-- the handler has put in its place.
pub data Response : Type 0 where
  origin_response bad_request : Response
  -- the substatus and the HRESULT that `SetStatus` is given
  bad_gateway : ℕ → HResult → Response

-- The fields that say how far the request is. `request` is `m_hRequest` ≠ NULL, `websocket` is
-- `m_pWebSocket` ≠ NULL, `disconnect` is `m_pDisconnect` ≠ NULL, and
-- `disconnect_assigned` that it has been assigned, which the constructor does not; `handlers` the LONG by its 32 bits.
-- The last fields count what has been asked and not been answered: the operations of WinHTTP
-- with a completion to come, the completions that IIS is to deliver, and the handles that WinHTTP is to
-- report as closing.
pub record Control : Type 0 where
  pub status : Status
  pub client_disconnected : Bool
  pub headers_received_and_set : Bool
  pub finish_request : Bool
  pub has_error : Bool
  pub done_async_completion : Bool
  pub websocket_enabled : Bool
  pub http_handle_in_close : Bool
  pub websocket_handle_in_close : Bool
  pub reset_connection : Bool
  pub server_reset_conn : Bool
  pub request : Bool
  pub websocket : Bool
  pub disconnect : Bool
  pub disconnect_assigned : Bool
  pub handlers : ℕ
  pub response : Response
  pub http_pending : ℕ
  pub iis_pending : ℕ
  pub closings : ℕ

-- The fields of the data: DWORDs, and a ULONGLONG for `content_length`. `entity_buffer` is
-- `m_pEntityBuffer` ≠ NULL. `written` is what has been handed to `WinHttpWriteData`, the last first.
pub record Handler : Type 0 where
  pub control : Control
  pub bytes_to_receive : ℕ
  pub bytes_to_send : ℕ
  pub last_send : ℕ
  pub entity_buffers : ℕ
  pub bytes_buffered : ℕ
  pub min_buffer_limit : ℕ
  pub content_length : ℕ
  pub entity_buffer : Bool
  pub written : List (List ℕ)

-- What `SetStatusAndHeaders` leaves: its result, `m_fWebSocketEnabled` if it was set,
-- `m_cContentLength` and `m_fResponseHeadersReceivedAndSet`.
pub record Headers : Type 0 where
  pub result : HResult
  pub websocket_enabled : Bool
  pub content_length : ℕ
  pub received_and_set : Bool

-- What the calls out of the handler answer while one event is handled, none of which is made twice.
-- A call of WinHTTP that fails has the error that `GetLastError` then gives. `memory` has the bytes at
-- `m_pEntityBuffer` when the event comes.
pub record System : Type 0 where
  pub write_data : Option Win32Error
  pub receive_response : Option Win32Error
  pub query_data_available : Option Win32Error
  pub read_data : Option Win32Error
  pub query_headers : Option Win32Error
  pub query_headers_again : Option Win32Error
  pub close_handle : Option Win32Error
  pub read_entity_body : HResult
  pub write_entity_chunk : HResult
  pub flush : HResult
  pub memory : List ℕ
  pub buffer_memory : Bool
  pub header_memory : Bool
  pub copy_headers : HResult
  pub headers : Headers
  pub websocket_memory : Bool
  pub process_request : HResult
  pub websocket_upgraded : Bool

abbrev pub infinite : ℕ
infinite = 2 ^ 32 - 1

abbrev pub buffer_size : ℕ
buffer_size = 8192

abbrev pub entity_buffer_size : ℕ
entity_buffer_size = 6 + buffer_size + 2

abbrev pub sub_dword : ℕ → ℕ → ℕ
sub_dword a b = (a + 2 ^ 32 - b % 2 ^ 32) % 2 ^ 32

abbrev pub sub_ulonglong : ℕ → ℕ → ℕ
sub_ulonglong a b = (a + 2 ^ 64 - b % 2 ^ 64) % 2 ^ 64

abbrev pub set_status : Status → Handler → Handler
set_status st h = record h { control = record h.control { status = st } }

-- An operation of WinHTTP has been started.
abbrev pub issue_http : Handler → Handler
issue_http h = record h { control = record h.control { http_pending = h.control.http_pending + 1 } }

-- IIS will call `OnAsyncCompletion`.
abbrev pub issue_iis : Handler → Handler
issue_iis h = record h { control = record h.control { iis_pending = h.control.iis_pending + 1 } }
