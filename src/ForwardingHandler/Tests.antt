-- ===== src/ForwardingHandler/Tests.antt =====
-- Runs of the model of FORWARDING_HANDLER, in
-- AspNetCoreModuleV2/RequestHandler/outofprocess/forwardinghandler.cpp.
use iisintegration.Prelude.{
  ◌≤◌, ◌≡◌, ◌⊎◌, refl, true, false, [], ◌∷◌, length, none, some, arith, replicate,
}
use iisintegration.Prelude.Win32.{s_ok, Win32Error}
use iisintegration.ForwardingHandler.{Handler, System, Status, Response, infinite}
use iisintegration.ForwardingHandler.Start.{
  Startup, new_handler, remove_start, on_execute_request_handler, create_winhttp_request,
}
use iisintegration.ForwardingHandler.Steps.{
  Request, Reach, here, next, http_step, closing_step, iis_step, end_http, end_iis, end_closing,
  add_reply,
}
use iisintegration.ForwardingHandler.Life.{
  started, outstanding, answered_or_outstanding, quiet_after_reply,
}
use iisintegration.ForwardingHandler.Chunk.{rechunk, chunk_bytes}
use iisintegration.ForwardingHandler.Framing.{framed}
use iisintegration.ForwardingHandler.Pump.{
  on_sending_request, on_status_data_available, on_status_read_complete,
  on_send_request_or_write_complete, on_status_headers_available, on_receiving_response,
  free_response_buffers,
}
use iisintegration.ForwardingHandler.Behaviour.{
  WritesChunk, IsWhole, Starts, on_sending_request-WritesChunk, content_length-is_done,
  finish_request-iis_pending, on_execute_request_handler-Starts,
}
use iisintegration.ForwardingHandler.Events.{
  Callback, sendrequest_complete, headers_available, data_available, handle_closing, read_complete,
  on_winhttp_completion, on_async_completion, notification_pending, remove_request, conclude,
  fail_async, answer, is_done,
}

abbrev startup : Startup
startup = record {
  connected = true;
  application = true;
  get_process = s_ok;
  process = true;
  connection = true;
  split_url = s_ok;
  escape_abs_path = s_ok;
  min_response_buffer = 0;
  websocket_configured = true;
  upgrade_header = false;
  copy_verb = s_ok;
  http_version = s_ok;
  open_request = none;
  set_timeouts = none;
  set_drain_size = none;
  set_header_size = none;
  disable_features = none;
  set_callback = none;
  get_headers = s_ok;
  headers_size = 100;
  stored_context = true;
  context_memory = true;
  store_context = s_ok;
  content_length = none;
  transfer_encoding = false;
  upgrade_option = none;
  send_request = none;
  error_page_disabled = false;
}

-- What a new handler's memory may hold.
abbrev memory : Handler
memory = record {
  control = record {
    status = Status.forwarder_start;
    client_disconnected = false;
    headers_received_and_set = false;
    finish_request = false;
    has_error = false;
    done_async_completion = false;
    websocket_enabled = false;
    http_handle_in_close = false;
    websocket_handle_in_close = false;
    reset_connection = false;
    server_reset_conn = false;
    request = false;
    websocket = false;
    disconnect = false;
    disconnect_assigned = false;
    handlers = 0;
    response = Response.origin_response;
    http_pending = 0;
    iis_pending = 0;
    closings = 0;
  };
  bytes_to_receive = 0;
  bytes_to_send = 0;
  last_send = 0;
  entity_buffers = 0;
  bytes_buffered = 0;
  min_buffer_limit = 0;
  content_length = 0;
  entity_buffer = false;
  written = [];
}

abbrev system : System
system = record {
  write_data = none;
  receive_response = none;
  query_data_available = none;
  read_data = none;
  query_headers = none;
  query_headers_again = none;
  close_handle = none;
  read_entity_body = s_ok;
  write_entity_chunk = s_ok;
  flush = s_ok;
  memory = [];
  buffer_memory = true;
  header_memory = true;
  copy_headers = s_ok;
  headers = record {
    result = s_ok;
    websocket_enabled = false;
    content_length = 0;
    received_and_set = true;
  };
  websocket_memory = true;
  process_request = s_ok;
  websocket_upgraded = false;
}

-- The answers once the handle is closed.
abbrev closed_system : System
closed_system = record system {
  write_data = some Win32Error.error_invalid_handle;
  receive_response = some Win32Error.error_invalid_handle;
  query_data_available = some Win32Error.error_invalid_handle;
  read_data = some Win32Error.error_invalid_handle;
}

-- The start sends the request.
abbrev begun : Handler
begun = record (new_handler memory) {
  control = record (new_handler memory).control {
    status = Status.forwarder_sending_request;
    request = true;
    disconnect = true;
    disconnect_assigned = true;
    http_pending = 1;
  };
  last_send = 100;
}

abbrev q0 : Request
q0 = started begun

abbrev winhttp : Callback → Request → Request
winhttp cb q = record q { handler = on_winhttp_completion system cb (end_http 0 q.handler) }

abbrev iis : System → Request → Request
iis s q = add_reply (on_async_completion s 0 s_ok (end_iis 0 q.handler)) q.replies

-- Request sent, headers, posted completion, no more data, closing, posted completion.
abbrev q1 : Request
q1 = winhttp sendrequest_complete q0

abbrev q2 : Request
q2 = winhttp headers_available q1

abbrev q3 : Request
q3 = iis system q2

abbrev q4 : Request
q4 = winhttp (data_available 0) q3

abbrev q5 : Request
q5 = record q4 { handler = on_winhttp_completion system handle_closing (end_closing 0 q4.handler) }

abbrev q6 : Request
q6 = iis closed_system q5

abbrev run : Reach q0 q6
unfolding on_execute_request_handler new_handler create_winhttp_request on_winhttp_completion
    on_send_request_or_write_complete on_status_headers_available on_async_completion
    on_receiving_response free_response_buffers on_status_data_available conclude answer
    remove_request
run =
    let opened : Reach q0 q4 =
      next
        (next
          (next
            (next here
              (http_step system sendrequest_complete 0 tt (refl, refl, refl, refl) refl refl))
            (http_step system headers_available 0 tt (refl, refl, refl, refl) refl refl))
          (iis_step system 0 0 s_ok (refl, refl, refl, refl) refl refl))
        (http_step system (data_available 0) 0 tt (refl, refl, refl, refl) refl refl) in
    next (next opened (closing_step system 0 refl refl refl))
      (iis_step closed_system 0 0 s_ok (refl, refl, refl, refl) refl refl)

start_pending :
    on_execute_request_handler startup (new_handler memory) ≡ some (notification_pending, begun)
unfolding on_execute_request_handler new_handler create_winhttp_request
start_pending = refl

one_reply : 1 ≤ length q6.replies
unfolding on_execute_request_handler new_handler create_winhttp_request on_winhttp_completion
    on_send_request_or_write_complete on_status_headers_available on_async_completion
    on_receiving_response free_response_buffers on_status_data_available conclude answer
    remove_request
one_reply = ground arith

answered_or_outstanding_example :
    (length q6.replies ≡ 1) ⊎ ((length q6.replies ≡ 0) × (1 ≤ outstanding q6.handler))
answered_or_outstanding_example =
    answered_or_outstanding startup memory begun refl start_pending q6 run

quiet_after_reply_example :
    (q6.handler.control.http_pending ≡ 0)
    × (q6.handler.control.closings ≡ 0)
    × (q6.handler.control.request ≡ false)
quiet_after_reply_example =
    quiet_after_reply startup memory begun refl start_pending q6 run one_reply

-- Three bytes in a small buffer.
abbrev chunked : System
chunked = record system { memory = framed 0 0 0 0 0 0 (65 ∷ 66 ∷ 67 ∷ []) 0 0 [] }

abbrev unsized : Handler
unsized = record memory { bytes_to_receive = infinite }

on_sending_request-WritesChunk_example :
    WritesChunk
      (65 ∷ 66 ∷ 67 ∷ [])
      (48 ∷ [])
      (on_sending_request chunked 3 s_ok unsized).handler.written
on_sending_request-WritesChunk_example =
    on_sending_request-WritesChunk chunked 0 0 0 0 0 0 (65 ∷ 66 ∷ 67 ∷ []) 0 0 [] (48 ∷ []) s_ok
      unsized (omega arith) refl refl refl

receiving : is_done q3.handler.control.status ≡ false
unfolding on_execute_request_handler new_handler create_winhttp_request on_winhttp_completion
    on_send_request_or_write_complete on_status_headers_available on_async_completion
    on_receiving_response free_response_buffers conclude answer remove_request
receiving = refl

content_length-is_done_example :
    IsWhole (on_winhttp_completion system (data_available 0) q3.handler)
    × IsWhole (on_winhttp_completion system (read_complete 0) q3.handler)
content_length-is_done_example = content_length-is_done system 0 q3.handler receiving

abbrev finished_handler : Handler
finished_handler = record memory { control = record memory.control { finish_request = true } }

finish_request-iis_pending_example :
    (on_winhttp_completion system sendrequest_complete finished_handler).control.iis_pending ≡ 0
finish_request-iis_pending_example =
    finish_request-iis_pending system sendrequest_complete finished_handler refl refl

-- The request cannot be sent.
abbrev unsent : Startup
unsent = record startup { send_request = some Win32Error.error_invalid_handle }

on_execute_request_handler-Starts_example :
    Starts (new_handler memory) (on_execute_request_handler unsent (new_handler memory))
on_execute_request_handler-Starts_example =
    on_execute_request_handler-Starts unsent (new_handler memory)

-- A start that fails before it has assigned `m_pDisconnect` calls through what the memory holds there.
wild_call :
    on_execute_request_handler
      (record startup { connected = false })
      (new_handler (record memory { control = record memory.control { disconnect = true } }))
    ≡ none
unfolding on_execute_request_handler new_handler remove_start
wild_call = refl

-- With buffering, the flush of the last bytes may complete before the closing of the handle is
-- reported: the response is then replaced.
abbrev buffered : Handler
buffered = record q3.handler {
  min_buffer_limit = 4096;
  bytes_to_send = 4096;
  bytes_buffered = 4000;
}

abbrev replaced : Request
replaced = iis closed_system (winhttp (read_complete 1000) (record q3 { handler = buffered }))

replaced_response : replaced.handler.control.response ≡ Response.bad_gateway 3 s_ok
unfolding on_execute_request_handler new_handler create_winhttp_request on_winhttp_completion
    on_send_request_or_write_complete on_status_headers_available on_async_completion
    on_receiving_response free_response_buffers on_status_read_complete conclude answer
    remove_request fail_async
replaced_response = refl

-- The completion of a read that brings no bytes is sent as the last chunk.
empty_read :
    (on_sending_request (record system { memory = replicate 10 0 }) 0 s_ok unsized).handler.written
    ≡ (48 ∷ 13 ∷ 10 ∷ 13 ∷ 10 ∷ []) ∷ []
unfolding on_sending_request rechunk chunk_bytes
empty_read = refl
