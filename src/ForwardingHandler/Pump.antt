-- ===== src/ForwardingHandler/Pump.antt =====
-- The functions of FORWARDING_HANDLER in
-- AspNetCoreModuleV2/RequestHandler/outofprocess/forwardinghandler.cpp that read the request from IIS
-- and send it to WinHTTP, and the response the other way.
use iisintegration.Prelude.{
  ℕ, ◌+◌, ◌/◌, ◌%◌, ◌^◌, min, Bool, true, false, not, ◌&&◌, ◌||◌, List, [], ◌∷◌, Option, none, some,
  ltb, leb, ◌==◌, if◌then◌else◌, take, drop,
}
use iisintegration.Prelude.Win32.{
  HResult, s_ok, e_outofmemory, hresult_from_win32, Win32Error, failed,
}
use iisintegration.ForwardingHandler.{
  Handler, System, Status, buffer_size, entity_buffer_size, infinite, sub_dword, sub_ulonglong,
  set_status, issue_http, issue_iis,
}
use iisintegration.ForwardingHandler.Chunk.{rechunk, chunk_bytes}

-- What a function returns and leaves: `hr`, `*pfClientError`, `*pfAnotherCompletionExpected`, and the
-- handler.
pub record Outcome : Type 0 where
  pub hr : HResult
  pub client_error : Bool
  pub another : Bool
  pub handler : Handler

abbrev pub fail : HResult → Handler → Outcome
fail e h = record { hr = e; client_error = false; another = false; handler = h }

abbrev pub fail_client : HResult → Handler → Outcome
fail_client e h = record { hr = e; client_error = true; another = false; handler = h }

-- Another completion will come.
abbrev pub await : Handler → Outcome
await h = record { hr = s_ok; client_error = false; another = true; handler = h }

-- No other completion will come.
abbrev pub proceed : Handler → Outcome
proceed h = record { hr = s_ok; client_error = false; another = false; handler = h }

-- `if (!WinHttp...(...)) hr = HRESULT_FROM_WIN32(GetLastError())`, of a call that is asynchronous
abbrev pub start : Option Win32Error → Handler → Outcome
start none h = await (issue_http h)
start (some e) h = fail (hresult_from_win32 e) h

abbrev pub is_eof : HResult → Bool
is_eof (hresult_from_win32 Win32Error.error_handle_eof) = true
is_eof hr = false

-- `WinHttpWriteData`, of the given bytes
abbrev pub write : System → List ℕ → Handler → Outcome
write s bytes h = start s.write_data (record h { written = bytes ∷ h.written })

-- "0\r\n\r\n"
abbrev pub last_chunk : List ℕ
last_chunk = 48 ∷ 13 ∷ 10 ∷ 13 ∷ 10 ∷ []

-- `NULL` is returned as `none`; the size matters to the allocation alone.
unfoldable pub get_new_response_buffer : System → ℕ → Handler → Option Handler
get_new_response_buffer s size h =
    if s.buffer_memory
    then some (record h { entity_buffer = true; entity_buffers = (h.entity_buffers + 1) % 2 ^ 32 })
    else none

abbrev pub ensure_buffer : System → ℕ → Handler → Option Handler
ensure_buffer s size h = if h.entity_buffer then some h else get_new_response_buffer s size h

unfoldable pub free_response_buffers : Handler → Handler
free_response_buffers h = record h { entity_buffers = 0; entity_buffer = false; bytes_buffered = 0 }

abbrev pub receive : System → Handler → Outcome
receive s h = start s.receive_response (set_status Status.forwarder_receiving_response h)

abbrev pub send_last_chunk : System → Handler → Outcome
send_last_chunk s h = write s last_chunk (record h { bytes_to_receive = 0; last_send = 5 })

abbrev pub read_body : System → Handler → Outcome
read_body s h =
    if is_eof s.read_entity_body
    then (if h.bytes_to_receive == infinite then send_last_chunk s h else receive s h)
    else if failed s.read_entity_body
    then fail_client s.read_entity_body h
    else record (await (issue_iis h)) { hr = s.read_entity_body }

unfoldable pub on_send_request_or_write_complete : System → Handler → Outcome
on_send_request_or_write_complete s h =
    if ltb 0 h.bytes_to_receive
    then elim (ensure_buffer s entity_buffer_size h) [
      | none ↦ fail e_outofmemory h
      | some h1 ↦ read_body s h1
    ]
    else receive s h

-- `WinHttpQueryHeaders`, with a larger buffer when the first call fails
abbrev pub query_headers : System → HResult
query_headers s = elim s.query_headers [
  | none ↦ s_ok
  | some e ↦
      if s.header_memory
      then elim s.query_headers_again [ none ↦ s_ok | some e2 ↦ hresult_from_win32 e2 ]
      else e_outofmemory
]

abbrev pub set_status_and_headers : System → Handler → Handler
set_status_and_headers s h = record h {
  control = record h.control {
    websocket_enabled = h.control.websocket_enabled && s.headers.websocket_enabled;
    headers_received_and_set = h.control.headers_received_and_set || s.headers.received_and_set;
  };
  content_length = s.headers.content_length;
}

abbrev pub flush_websocket : System → Handler → Outcome
flush_websocket s h =
    let h1 = set_status Status.forwarder_received_websocket_response h in
    if failed s.flush then fail s.flush h1 else record (await (issue_iis h1)) { hr = s.flush }

unfoldable pub on_status_headers_available : System → Handler → Outcome
on_status_headers_available s h =
    if failed (query_headers s)
    then fail (query_headers s) h
    else if failed s.copy_headers
    then fail s.copy_headers h
    else let h1 = set_status_and_headers s h in
      if failed s.headers.result
      then fail s.headers.result h1
      else let h2 = free_response_buffers h1 in
        if h2.control.websocket_enabled
        then flush_websocket s h2
        else record (proceed h2) { hr = s.headers.result }

abbrev pub invalid_response : HResult
invalid_response = hresult_from_win32 Win32Error.error_winhttp_invalid_server_response

abbrev pub count_available : ℕ → Handler → Handler
count_available n h = record h {
  bytes_to_send = n;
  content_length =
      if not (h.content_length == 0) then sub_ulonglong h.content_length n else h.content_length;
}

abbrev pub read_available : System → Handler → Outcome
read_available s h = elim (get_new_response_buffer s (min h.bytes_to_send buffer_size) h) [
  | none ↦ fail e_outofmemory (record h { entity_buffer = false })
  | some h1 ↦ start s.read_data h1
]

unfoldable pub on_status_data_available : System → ℕ → Handler → Outcome
on_status_data_available s n h =
    if n == 0
    then (if not (h.content_length == 0)
        then fail invalid_response h
        else proceed (set_status Status.forwarder_done h))
    else read_available s (count_available n h)

-- The response ends with this read: buffering is on, and the buffer has not been filled.
abbrev pub is_final_read : ℕ → Handler → Bool
is_final_read n h =
    leb (buffer_size / 2) h.min_buffer_limit && ((n == 0) || not (h.bytes_to_send == 0))

abbrev pub count_read : ℕ → Handler → Handler
count_read n h =
    let h1 = record h { bytes_to_send = sub_dword h.bytes_to_send n } in
    record h1 {
      content_length =
          if leb (buffer_size / 2) h1.min_buffer_limit && not (h1.content_length == 0)
          then sub_ulonglong h1.content_length n
          else h1.content_length;
    }

abbrev pub write_entity_chunk : System → ℕ → Handler → Outcome
write_entity_chunk s n h =
    let h1 = record h { bytes_buffered = (h.bytes_buffered + n) % 2 ^ 32 } in
    if failed s.write_entity_chunk
    then fail s.write_entity_chunk h1
    else if leb h1.min_buffer_limit h1.bytes_buffered
    then (if failed s.flush
        then fail s.flush h1
        else record (await (issue_iis h1)) { hr = s.flush })
    else record (proceed h1) { hr = s.write_entity_chunk }

abbrev pub send_to_client : System → ℕ → Handler → Outcome
send_to_client s n h = if n == 0 then proceed h else write_entity_chunk s n h

unfoldable pub on_status_read_complete : System → ℕ → Handler → Outcome
on_status_read_complete s n h =
    let h1 = count_read n h in
    if is_final_read n h1
    then (if not (h1.content_length == 0)
        then fail invalid_response h1
        else send_to_client s n (set_status Status.forwarder_done h1))
    else send_to_client s n h1

-- `n` bytes have been read into the buffer, six bytes from its start.
abbrev pub send_chunk : System → ℕ → Handler → Outcome
send_chunk s n h =
    let c = rechunk n s.memory in write s (chunk_bytes c) (record h { last_send = c.size % 2 ^ 32 })

abbrev pub send_plain : System → ℕ → Handler → Outcome
send_plain s n h =
    write s (take n (drop 6 s.memory))
      (record h { bytes_to_receive = sub_dword h.bytes_to_receive n; last_send = n })

unfoldable pub on_sending_request : System → ℕ → HResult → Handler → Outcome
on_sending_request s n completion h =
    if is_eof completion
    then (if h.bytes_to_receive == infinite then send_last_chunk s h else receive s h)
    else if not (failed completion)
    then (if not (h.bytes_to_receive == infinite) then send_plain s n h else send_chunk s n h)
    else fail_client completion h

abbrev pub read_size : Handler → ℕ
read_size h =
    if h.bytes_to_send == 0
    then (let n = min h.min_buffer_limit buffer_size in if ltb n (buffer_size / 2) then 0 else n)
    else h.bytes_to_send

abbrev pub receive_more : System → Handler → Outcome
receive_more s h =
    if h.bytes_to_send == 0
    then start s.query_data_available h
    else elim (ensure_buffer s (min h.bytes_to_send buffer_size) h) [
      | none ↦ fail e_outofmemory h
      | some h1 ↦ start s.read_data h1
    ]

unfoldable pub on_receiving_response : System → Handler → Outcome
on_receiving_response s h =
    let h1 = if leb h.min_buffer_limit h.bytes_buffered then free_response_buffers h else h in
    receive_more s (record h1 { bytes_to_send = read_size h1 })
