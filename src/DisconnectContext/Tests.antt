-- ===== src/DisconnectContext/Tests.antt =====
-- A run of ASYNC_DISCONNECT_CONTEXT, in AspNetCoreModuleV2/RequestHandler/disconnectcontext.h.
use iisintegration.Prelude.{◌≡◌, refl, false}
use iisintegration.DisconnectContext.{
  Context, set_handler, take_to_notify, notify_taken, take_to_reset, Turns, notify_exchange,
  notify_release, reset_exchange, no_turn, turn,
}
use iisintegration.DisconnectContext.Once.{IsBalanced, set_handler-IsBalanced}

abbrev empty : Context
empty = record {
  registered = false;
  references = 1;
  terminations = 0;
  notifying = 0;
  resetting = 0;
}

-- A reset comes between the two steps of a notification.
abbrev after : Context
after = notify_taken (take_to_reset (take_to_notify (set_handler empty)))

abbrev interleaved : Turns (set_handler empty) after
unfolding set_handler take_to_notify take_to_reset
interleaved = turn (turn (turn no_turn notify_exchange) reset_exchange) (notify_release 0 refl)

set_handler-IsBalanced_example : IsBalanced 1 0 after
set_handler-IsBalanced_example = set_handler-IsBalanced empty after refl refl refl interleaved

one_left : after.references ≡ 1
unfolding set_handler take_to_notify take_to_reset notify_taken
one_left = refl
