-- ===== src/ForwardingHandler/Started.antt =====
-- The start of a request without a WebSocket in FORWARDING_HANDLER, in
-- AspNetCoreModuleV2/RequestHandler/outofprocess/forwardinghandler.cpp, up to the first operation.
use iisintegration.Prelude.{
  ◌≡◌, refl, Bool, true, false, not, ◌&&◌, [], ◌∷◌, Option, none, some, if-both, arith,
}
use iisintegration.Prelude.Win32.{failed, HResult, e_outofmemory, hresult_from_win32}
use iisintegration.ForwardingHandler.{Handler, Control}
use iisintegration.ForwardingHandler.Events.{Reply, notification_pending}
use iisintegration.ForwardingHandler.Running.{IsRunning}
use iisintegration.ForwardingHandler.Start.{
  Startup, Exit, failure, finished, new_handler, on_execute_request_handler, prepare, create,
  create_winhttp_request, leave, begin, start_response, need, need_context, set_disconnect,
  set_request, first_error, mark_websocket, refuse, remove_start,
}

-- A start that ends with pending has an open handle and an operation to come.
abbrev pub IsStarted : Option (Reply × Handler) → Type 0
IsStarted (some (notification_pending, h)) = IsRunning h.control
IsStarted _ = Unit

abbrev Exits : Exit × Handler → Type 0
Exits (finished notification_pending, h) = IsRunning h.control
Exits _ = Unit

-- What no part of the start changes.
abbrev IsFresh : Control → Type 0
IsFresh c =
    (c.websocket ≡ false)
    × (c.websocket_enabled ≡ false)
    × (c.http_handle_in_close ≡ false)
    × (c.closings ≡ 0)
    × (c.handlers ≡ 1)
    × (c.finish_request ≡ false)
    × (c.done_async_completion ≡ false)
    × (c.has_error ≡ false)

-- The client's disconnect is watched, by a pointer that the start has assigned.
abbrev pub IsHeld : Handler → Type 0
IsHeld h = (h.control.disconnect ≡ true) × (h.control.disconnect_assigned ≡ true)

-- Whatever the start may end with, by what holds of the handler all along.
module _ (u : Startup) (Q : Handler → Type 0) (P : Exit × Handler → Type 0)
    (fails : (hr : HResult) (b : Bool) (h : Handler) → Q h → P (failure hr b, h))
    (begins : (h : Handler) → Q h → IsHeld h → P (begin u h))
    (requests : (b : Bool) (h : Handler) → Q h → Q (set_request b h))
    (disconnects : (b : Bool) (h : Handler) → Q h → Q (set_disconnect b h))
    (marks : (h : Handler) → Q h → Q (mark_websocket u h)) where
  need-all :
      (hr : HResult) (k : Handler → Exit × Handler) (h : Handler) → Q h → P (k h) → P (need hr k h)
  need-all hr k h q e = if-both P (failed hr) _ _ (λ _. fails hr false h q) (λ _. e)

  need_context-all : (h : Handler) → Q h → P (need_context u (begin u) h)
  need_context-all h q =
      let g = set_disconnect true h in
      let r = disconnects true h q in
      if-both P u.stored_context _ _ (λ _. begins g r (refl, refl))
        (λ _.
          if-both P (not u.context_memory) _ _
            (λ _. fails e_outofmemory false (set_disconnect false h) (disconnects false h q))
            (λ _. need-all u.store_context (begin u) g r (begins g r (refl, refl))))

  create_winhttp_request-all : (h : Handler) → Q h → Q (create_winhttp_request u h).1
  unfolding create_winhttp_request
  create_winhttp_request-all h q =
      if-both (λ (r : HResult × Handler). Q r.1) (failed u.copy_verb) _ _ (λ _. q)
        (λ _.
          if-both (λ (r : HResult × Handler). Q r.1) (failed u.http_version) _ _ (λ _. q)
            (λ _.
              elim u.open_request
                as (λ o.
                  Q
                    (elim o as (λ _. HResult × Handler) [
                      | some e ↦ (hresult_from_win32 e, set_request false h)
                      | none ↦ (
                        first_error
                            (u.set_timeouts ∷ u.set_drain_size ∷ u.set_header_size
                              ∷ u.disable_features ∷ u.set_callback ∷ [])
                            u.get_headers,
                        set_request true h,
                      )
                    ]).1) [ some e ↦ requests false h q | none ↦ requests true h q ]))

  create-all : (h : Handler) → Q h → P (create u h)
  create-all h q =
      let r = create_winhttp_request u (mark_websocket u h) in
      let left = create_winhttp_request-all (mark_websocket u h) (marks h q) in
      need-all r.0 (need_context u (begin u)) r.1 left (need_context-all r.1 left)

  pub prepare-all : (h : Handler) → Q h → P (prepare u h)
  prepare-all h q =
      if-both P (not u.connected) _ _ (λ _. fails _ false h q)
        (λ _.
          if-both P (not u.application) _ _ (λ _. fails _ false h q)
            (λ _.
              if-both P (failed u.get_process) _ _ (λ _. fails _ true h q)
                (λ _.
                  if-both P (not u.process) _ _ (λ _. fails _ true h q)
                    (λ _.
                      if-both P (not u.connection) _ _ (λ _. fails _ false h q)
                        (λ _.
                          need-all u.split_url (need u.escape_abs_path (create u)) h q
                            (need-all u.escape_abs_path (create u) h q (create-all h q)))))))

begin-Exits : (u : Startup) (h : Handler) → IsFresh h.control → IsHeld h → Exits (begin u h)
begin-Exits u h f held = ground arith

prepare-Exits :
    (u : Startup) (h : Handler)
    → (u.websocket_configured && u.upgrade_header) ≡ false
    → IsFresh h.control
    → Exits (prepare u h)
prepare-Exits u h w f =
    prepare-all u (λ g. IsFresh g.control) Exits (λ hr b g q. tt) (begin-Exits u) (λ b g q. q)
      (λ b g q. q) (λ g q. ground arith) h f

leave-IsStarted : (u : Startup) (r : Exit × Handler) → Exits r → IsStarted (leave u r)
unfolding remove_start
leave-IsStarted u (finished notification_pending, h) e = e
leave-IsStarted u (finished Reply.notification_continue, h) e = tt
leave-IsStarted u (finished Reply.notification_finish_request, h) e = tt
leave-IsStarted u (failure hr b, h) e =
    if-both (λ (o : Option Handler). IsStarted (refuse (start_response u hr b) o))
      (h.control.disconnect && not h.control.disconnect_assigned) _ _ (λ _. tt) (λ _. tt)

pub start-IsStarted :
    (u : Startup) (memory : Handler)
    → (u.websocket_configured && u.upgrade_header) ≡ false
    → IsStarted (on_execute_request_handler u (new_handler memory))
unfolding on_execute_request_handler new_handler
start-IsStarted u memory w =
    leave-IsStarted u _
      (prepare-Exits u (new_handler memory) w (refl, refl, refl, refl, refl, refl, refl, refl))
