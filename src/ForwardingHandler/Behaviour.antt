-- ===== src/ForwardingHandler/Behaviour.antt =====
-- What single operations of FORWARDING_HANDLER, in
-- AspNetCoreModuleV2/RequestHandler/outofprocess/forwardinghandler.cpp, do on every branch.
use iisintegration.Prelude.{
  ℕ, ◌+◌, ◌^◌, ◌<◌, ◌≡◌, refl, Bool, true, false, not, ◌&&◌, ◌==◌, List, [], ◌∷◌, ◌++◌, length,
  Option, none, some, if-both, arith,
}
use iisintegration.Prelude.Win32.{failed, HResult, hresult_from_win32, Win32Error}
use iisintegration.ForwardingHandler.{Handler, System, Status, Response, infinite}
use iisintegration.ForwardingHandler.Framing.{framed, part_of, read_chunk, read_chunk-rechunk}
use iisintegration.ForwardingHandler.Pump.{
  Outcome, start, on_sending_request, on_status_data_available, on_status_read_complete,
  get_new_response_buffer, is_eof,
}
use iisintegration.ForwardingHandler.Events.{
  Reply, Callback, data_available, read_complete, on_callback, is_dropped, is_websocket, aborted,
  fail_winhttp, notification_pending, remove_request, is_done, is_closing, on_winhttp_completion,
  conclude,
}
use iisintegration.ForwardingHandler.Started.{IsHeld, prepare-all}
use iisintegration.ForwardingHandler.Start.{
  begin, is_reset, start_response, Startup, Exit, failure, finished, on_execute_request_handler,
  prepare, leave, refuse, remove_start,
}

-- The last bytes written are what a reader takes for a chunk with the given data, or, without data, for the end
-- of the body.
abbrev pub WritesChunk : List ℕ → List ℕ → List (List ℕ) → Type 0
WritesChunk bytes next [] = ⊥
WritesChunk bytes next (c ∷ _) = read_chunk (c ++ next) ≡ some (part_of bytes next)

abbrev Writes : List ℕ → List ℕ → Outcome → Type 0
Writes bytes next o = WritesChunk bytes next o.handler.written

start-Writes :
    (bytes next : List ℕ) (a : Option Win32Error) (h : Handler)
    → WritesChunk bytes next h.written
    → Writes bytes next (start a h)
start-Writes bytes next none h w = w
start-Writes bytes next (some e) h w = w

not_eof : (hr : HResult) → is_eof hr ≡ true → failed hr ≡ false → ⊥
not_eof (hresult_from_win32 Win32Error.error_handle_eof) e f = absurd (ground arith)
not_eof _ e f = absurd (ground arith)

-- When IIS has completed a read of fewer than 2^16 bytes of a request body without a declared length into the
-- entity buffer, without an error, one chunk is handed to WinHTTP. If the read has brought bytes, a reader of
-- chunks gets back those bytes, and then whatever follows. If it has brought none, the reader takes the chunk for
-- the end of the body.
pub on_sending_request-WritesChunk :
    (s : System) (a b c d e f : ℕ) (bytes : List ℕ) (x y : ℕ) (rest next : List ℕ) (hr : HResult)
    (h : Handler)
    → length bytes < 2 ^ 16
    → s.memory ≡ framed a b c d e f bytes x y rest
    → failed hr ≡ false
    → h.bytes_to_receive ≡ infinite
    → WritesChunk bytes next (on_sending_request s (length bytes) hr h).handler.written
unfolding on_sending_request
on_sending_request-WritesChunk s a b c d e f bytes x y rest next hr h l m k i =
    if-both (Writes bytes next) (is_eof hr) _ _ (λ e. absurd (not_eof hr e k))
      (λ _.
        if-both (Writes bytes next) (not (failed hr)) _ _
          (λ _.
            if-both (Writes bytes next) (not (h.bytes_to_receive == infinite)) _ _
              (λ j. absurd (ground arith))
              (λ _.
                start-Writes bytes next s.write_data _
                  (rw m (read_chunk-rechunk a b c d e f bytes x y rest next l))))
          (λ j. absurd (ground arith)))

-- Done without an error: no bytes of the declared length are missing.
abbrev pub IsWhole : Handler → Type 0
IsWhole h = is_done h.control.status ≡ true → h.control.has_error ≡ false → h.content_length ≡ 0

conclude-IsWhole :
    (s : System) (another : Bool) (h : Handler) → IsWhole h → IsWhole (conclude s false another h)
unfolding conclude remove_request
conclude-IsWhole s another h w = ground arith

IsWholeOutcome : Outcome → Type 0
IsWholeOutcome o = failed o.hr ≡ false → IsWhole o.handler

callback-IsWhole :
    (s : System) (cb : Callback) (h : Handler)
    → is_closing cb ≡ false
    → is_done h.control.status ≡ false
    → (failed (on_callback s cb h).hr ≡ false → IsWhole (on_callback s cb h).handler)
    → IsWhole (on_winhttp_completion s cb h)
unfolding on_winhttp_completion fail_winhttp
callback-IsWhole s cb h k d w =
    let o = on_callback s cb h in
    rw k (
      if-both IsWhole h.control.finish_request _ _
        (λ _. conclude-IsWhole s false h (λ e. absurd (ground arith)))
        (λ _.
          if-both IsWhole (is_dropped h) _ _
            (λ _. conclude-IsWhole s false (fail_winhttp false aborted h) (ground arith))
            (λ _.
              if-both IsWhole (is_websocket h.control.status) _ _
                (λ _. conclude-IsWhole s true h (λ e. absurd (ground arith)))
                (λ _.
                  conclude-IsWhole s o.another _
                    (if-both IsWhole (failed o.hr) _ _ (λ f. ground arith) (λ ok. w ok))))))

-- When WinHTTP tells a handler that is not done of data, or of a read, then after the whole callback the handler
-- is done without an error only if no bytes of the response's declared length are missing: a response that breaks
-- off is marked as an error.
pub content_length-is_done :
    (s : System) (n : ℕ) (h : Handler)
    → is_done h.control.status ≡ false
    → IsWhole (on_winhttp_completion s (data_available n) h)
      × IsWhole (on_winhttp_completion s (read_complete n) h)
unfolding on_status_data_available on_status_read_complete get_new_response_buffer
content_length-is_done s n h d = (
  callback-IsWhole s (data_available n) h refl d (ground arith),
  callback-IsWhole s (read_complete n) h refl d (ground arith),
)

-- After the request has been marked as finished, no callback of WinHTTP but a handle's closing
-- has IIS deliver another completion, also with a WebSocket.
pub finish_request-iis_pending :
    (s : System) (cb : Callback) (h : Handler)
    → h.control.finish_request ≡ true
    → is_closing cb ≡ false
    → (on_winhttp_completion s cb h).control.iis_pending ≡ h.control.iis_pending
unfolding on_winhttp_completion conclude remove_request
finish_request-iis_pending s cb h f k = ground arith

abbrev IsError : Response → Type 0
IsError Response.origin_response = ⊥
IsError _ = Unit

-- The start of `h` has ended with a reply and a handler, or with a call through a wild pointer.
abbrev pub Starts : Handler → Option (Reply × Handler) → Type 0
Starts h none = (h.control.disconnect_assigned ≡ false) × (h.control.disconnect ≡ true)
Starts h (some (notification_pending, g)) =
    (g.control.status ≡ Status.forwarder_sending_request)
    × (g.control.request ≡ true)
    × (g.control.http_pending ≡ h.control.http_pending + 1)
    × IsHeld g
Starts h (some (Reply.notification_continue, g)) =
    (g.control.websocket_enabled ≡ true)
    × (g.control.http_pending ≡ h.control.http_pending)
    × IsHeld g
Starts h (some (Reply.notification_finish_request, g)) =
    (g.control.status ≡ Status.forwarder_done)
    × (g.control.disconnect ≡ false)
    × (g.control.http_pending ≡ h.control.http_pending)
    × IsError g.control.response

-- Nothing has been started, and a pointer that has not been assigned is the one of `h`.
abbrev IsIdle : Handler → Handler → Type 0
IsIdle h g =
    (g.control.http_pending ≡ h.control.http_pending)
    × (g.control.disconnect_assigned ≡ false
        → (h.control.disconnect_assigned ≡ false) × (g.control.disconnect ≡ h.control.disconnect))

abbrev Ends : Handler → Exit × Handler → Type 0
Ends h (failure hr b, g) = IsIdle h g
Ends h (finished Reply.notification_finish_request, g) = ⊥
Ends h (finished r, g) = Starts h (some (r, g))

begin-Ends : (u : Startup) (h g : Handler) → IsIdle h g → IsHeld g → Ends h (begin u g)
begin-Ends u h g q held = ground arith

start_response-IsError : (u : Startup) (hr : HResult) (b : Bool) → IsError (start_response u hr b)
start_response-IsError u hr b =
    if-both IsError (is_reset hr) _ _ (λ _. tt)
      (λ _. if-both IsError (b && not u.error_page_disabled) _ _ (λ _. tt) (λ _. tt))

leave-Starts : (u : Startup) (h : Handler) (r : Exit × Handler) → Ends h r → Starts h (leave u r)
unfolding remove_request remove_start
leave-Starts u h (failure hr b, g) (e, same) =
    if-both (λ (o : Option Handler). Starts h (refuse (start_response u hr b) o))
      (g.control.disconnect && not g.control.disconnect_assigned) _ _
      (λ wild. let (a, d) = same (ground arith) in (a, ground arith))
      (λ _. (refl, refl, e, start_response-IsError u hr b))
leave-Starts u h (finished notification_pending, g) e = e
leave-Starts u h (finished Reply.notification_continue, g) e = e
leave-Starts u h (finished Reply.notification_finish_request, g) e = elim e [ ]

-- However the calls of the start answer: with pending, the request is being sent on an open handle, with one
-- more operation of WinHTTP to come, and the client's disconnect is watched through a pointer that has been
-- assigned; with a request to finish, the request is done, the client's disconnect is no longer watched, nothing
-- has been started, and the response is an error; with a reply to continue, it is a request for a WebSocket,
-- nothing has been started, and the disconnect is watched. RemoveRequest calls through a wild pointer only if
-- `m_pDisconnect` is not NULL before the start and has never been assigned.
pub on_execute_request_handler-Starts :
    (u : Startup) (h : Handler) → Starts h (on_execute_request_handler u h)
unfolding on_execute_request_handler
on_execute_request_handler-Starts u h = leave-Starts u h (prepare u h) (
    prepare-all u (IsIdle h) (Ends h) (λ hr b g q. q) (begin-Ends u h) (λ b g q. q)
      (λ b g q. (q.0, λ n. absurd (ground arith))) (λ g q. q) h (refl, λ n. (n, refl)))
