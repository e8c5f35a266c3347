-- ===== src/ForwardingHandler/PumpEffect.antt =====
-- What each function of `Pump` in FORWARDING_HANDLER, in
-- AspNetCoreModuleV2/RequestHandler/outofprocess/forwardinghandler.cpp, does to a request.
use iisintegration.Prelude.{
  ℕ, ◌+◌, ◌≡◌, refl, inl, inr, Bool, true, false, Option, none, some, if-both, arith, min, ltb, leb,
  ◌==◌, ◌%◌, ◌^◌, not, ◌&&◌,
}
use iisintegration.Prelude.Win32.{failed, HResult, e_outofmemory, s_ok}
use iisintegration.ForwardingHandler.{
  Handler, System, Status, set_status, buffer_size, entity_buffer_size, infinite,
}
use iisintegration.ForwardingHandler.Pump.{
  start, fail, receive, send_last_chunk, read_body, ensure_buffer, get_new_response_buffer,
  on_send_request_or_write_complete, on_status_headers_available, on_status_data_available,
  on_status_read_complete, on_sending_request, on_receiving_response, free_response_buffers,
  count_available, count_read, read_available, read_size, receive_more, send_to_client,
  is_final_read, is_eof, invalid_response, query_headers, set_status_and_headers,
}
use iisintegration.ForwardingHandler.Effect.{
  Same, Same-refl, Same-done, Same-receiving, Effect, Attempt, attempts, IsSound, start-Attempt,
  iis-Effect, fail-Effect, fail-Attempt, proceed-Effect,
}

get_new_response_buffer-control :
    (s : System) (n : ℕ) (h : Handler) (P : Option Handler → Type 0)
    → P none
    → ((k : ℕ) (b : Bool) → P (some (record h { entity_buffers = k; entity_buffer = b })))
    → P (get_new_response_buffer s n h)
unfolding get_new_response_buffer
get_new_response_buffer-control s n h P p q =
    if-both P s.buffer_memory _ _ (λ _. q ((h.entity_buffers + 1) % 2 ^ 32) true) (λ _. p)

ensure_buffer-control :
    (s : System) (n : ℕ) (h : Handler) (P : Option Handler → Type 0)
    → P none
    → ((k : ℕ) (b : Bool) → P (some (record h { entity_buffers = k; entity_buffer = b })))
    → P (ensure_buffer s n h)
unfolding get_new_response_buffer
ensure_buffer-control s n h P p q =
    if-both P h.entity_buffer _ _ (λ _. q h.entity_buffers h.entity_buffer)
      (λ _. get_new_response_buffer-control s n h P p q)

module _ (s : System) (h : Handler) (w : h.control.websocket_enabled ≡ false)
    (law : IsSound s h.control) where
  last_chunk-Attempt : Attempt h.control (send_last_chunk s h)
  last_chunk-Attempt =
      start-Attempt h.control s.write_data _ law.0 (Same-refl h.control w) (inl refl)

  receive-Attempt : Attempt h.control (receive s h)
  receive-Attempt =
      start-Attempt h.control s.receive_response _ law.1 (Same-receiving h.control w) (inr refl)

  read_body-Effect : Effect h.control (read_body s h)
  read_body-Effect =
      if-both (Effect h.control) (is_eof s.read_entity_body) _ _
        (λ _.
          if-both (Effect h.control) (h.bytes_to_receive == infinite) _ _
            (λ _. attempts (last_chunk-Attempt)) (λ _. attempts (receive-Attempt)))
        (λ _.
          if-both (Effect h.control) (failed s.read_entity_body) _ _
            (λ f. fail-Effect h.control s.read_entity_body true h f (Same-refl h.control w))
            (λ f. iis-Effect h.control s.read_entity_body h f (Same-refl h.control w)))

receive_more-Attempt :
    (s : System) (h : Handler)
    → h.control.websocket_enabled ≡ false
    → IsSound s h.control
    → Attempt h.control (receive_more s h)
receive_more-Attempt s h w law =
    if-both (Attempt h.control) (h.bytes_to_send == 0) _ _
      (λ _.
        start-Attempt h.control s.query_data_available h law.2 (Same-refl h.control w) (inl refl))
      (λ _.
        ensure_buffer-control s (min h.bytes_to_send buffer_size) h
          (λ o.
            Attempt h.control
              (elim o [ none ↦ fail e_outofmemory h | some h1 ↦ start s.read_data h1 ]))
          (fail-Attempt h.control e_outofmemory false h refl (Same-refl h.control w))
          (λ k b. start-Attempt h.control s.read_data _ law.3 (Same-refl h.control w) (inl refl)))

read_available-Effect :
    (s : System) (h : Handler)
    → h.control.websocket_enabled ≡ false
    → IsSound s h.control
    → Effect h.control (read_available s h)
read_available-Effect s h w law =
    get_new_response_buffer-control s (min h.bytes_to_send buffer_size) h
      (λ o. Effect h.control (elim o [
        | none ↦ fail e_outofmemory (record h { entity_buffer = false })
        | some h1 ↦ start s.read_data h1
      ]))
      (fail-Effect h.control e_outofmemory false _ refl (Same-refl h.control w))
      (λ k b.
        attempts (start-Attempt h.control s.read_data _ law.3 (Same-refl h.control w) (inl refl)))

module _ (s : System) (h : Handler) (w : h.control.websocket_enabled ≡ false)
    (law : IsSound s h.control) where
  pub on_send_request_or_write_complete-Effect :
      Effect h.control (on_send_request_or_write_complete s h)
  unfolding on_send_request_or_write_complete
  on_send_request_or_write_complete-Effect =
      if-both (Effect h.control) (ltb 0 h.bytes_to_receive) _ _
        (λ _.
          ensure_buffer-control s entity_buffer_size h
            (λ o.
              Effect h.control (elim o [ none ↦ fail e_outofmemory h | some h1 ↦ read_body s h1 ]))
            (fail-Effect h.control e_outofmemory false h refl (Same-refl h.control w))
            (λ k b. read_body-Effect s (record h { entity_buffers = k; entity_buffer = b }) w law))
        (λ _. attempts (receive-Attempt s h w law))

  pub on_status_headers_available-Effect : Effect h.control (on_status_headers_available s h)
  unfolding on_status_headers_available free_response_buffers
  on_status_headers_available-Effect =
      let off : (b : Bool) → (h.control.websocket_enabled && b) ≡ false = λ b. rw w refl in
      let g = set_status_and_headers s h in
      let same : Same h.control g.control = (
        (refl, refl, refl, refl, refl, refl, refl, refl, refl, off s.headers.websocket_enabled),
        inl refl,
        refl,
        refl,
      ) in
      if-both (Effect h.control) (failed (query_headers s)) _ _
        (λ f. fail-Effect h.control (query_headers s) false h f (Same-refl h.control w))
        (λ _.
          if-both (Effect h.control) (failed s.copy_headers) _ _
            (λ f. fail-Effect h.control s.copy_headers false h f (Same-refl h.control w))
            (λ _.
              if-both (Effect h.control) (failed s.headers.result) _ _
                (λ f. fail-Effect h.control s.headers.result false g f same)
                (λ f.
                  if-both (Effect h.control) g.control.websocket_enabled _ _
                    (λ e. absurd (ground arith))
                    (λ _. proceed-Effect h.control s.headers.result _ f same))))

  pub on_status_data_available-Effect : (n : ℕ) → Effect h.control (on_status_data_available s n h)
  unfolding on_status_data_available
  on_status_data_available-Effect n =
      if-both (Effect h.control) (n == 0) _ _
        (λ _.
          if-both (Effect h.control) (not (h.content_length == 0)) _ _
            (λ _. fail-Effect h.control invalid_response false h refl (Same-refl h.control w))
            (λ _.
              proceed-Effect h.control s_ok (set_status Status.forwarder_done h) refl
                (Same-done h.control w)))
        (λ _. read_available-Effect s (count_available n h) w law)

  pub on_sending_request-Attempt :
      (n : ℕ) (completion : HResult) → Attempt h.control (on_sending_request s n completion h)
  unfolding on_sending_request
  on_sending_request-Attempt n completion =
      if-both (Attempt h.control) (is_eof completion) _ _
        (λ _.
          if-both (Attempt h.control) (h.bytes_to_receive == infinite) _ _
            (λ _. last_chunk-Attempt s h w law) (λ _. receive-Attempt s h w law))
        (λ _.
          if-both (Attempt h.control) (not (failed completion)) _ _
            (λ _.
              if-both (Attempt h.control) (not (h.bytes_to_receive == infinite)) _ _
                (λ _.
                  start-Attempt h.control s.write_data _ law.0 (Same-refl h.control w) (inl refl))
                (λ _.
                  start-Attempt h.control s.write_data _ law.0 (Same-refl h.control w) (inl refl)))
            (λ f. fail-Attempt h.control completion true h (ground arith) (Same-refl h.control w)))

  pub on_receiving_response-Attempt : Attempt h.control (on_receiving_response s h)
  unfolding on_receiving_response free_response_buffers
  on_receiving_response-Attempt =
      if-both
        (λ h1. Attempt h.control (receive_more s (record h1 { bytes_to_send = read_size h1 })))
        (leb h.min_buffer_limit h.bytes_buffered) _ _ (λ _. receive_more-Attempt s _ w law)
        (λ _. receive_more-Attempt s _ w law)

  send_to_client-Effect :
      (n : ℕ) (g : Handler) → Same h.control g.control → Effect h.control (send_to_client s n g)
  send_to_client-Effect n g e =
      if-both (Effect h.control) (n == 0) _ _ (λ _. proceed-Effect h.control s_ok g refl e)
        (λ _.
          if-both (Effect h.control) (failed s.write_entity_chunk) _ _
            (λ f. fail-Effect h.control s.write_entity_chunk false _ f e)
            (λ k.
              if-both (Effect h.control) (leb g.min_buffer_limit ((g.bytes_buffered + n) % 2 ^ 32))
                _ _
                (λ _.
                  if-both (Effect h.control) (failed s.flush) _ _
                    (λ f. fail-Effect h.control s.flush false _ f e)
                    (λ f. iis-Effect h.control s.flush _ f e))
                (λ _. proceed-Effect h.control s.write_entity_chunk _ k e)))

  pub on_status_read_complete-Effect : (n : ℕ) → Effect h.control (on_status_read_complete s n h)
  unfolding on_status_read_complete
  on_status_read_complete-Effect n =
      if-both (Effect h.control) (is_final_read n (count_read n h)) _ _
        (λ _.
          if-both (Effect h.control) (not ((count_read n h).content_length == 0)) _ _
            (λ _. fail-Effect h.control invalid_response false _ refl (Same-refl h.control w))
            (λ _. send_to_client-Effect n _ (Same-done h.control w)))
        (λ _. send_to_client-Effect n _ (Same-refl h.control w))
