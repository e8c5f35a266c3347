-- ===== src/DisconnectContext.antt =====
-- ASYNC_DISCONNECT_CONTEXT of AspNetCoreModuleV2/RequestHandler/disconnectcontext.h: the callback
-- with which IIS tells a request that its client is gone. NotifyDisconnect and ResetHandler may run on two
-- threads at once; the exchange of the pointer is atomic, and what follows it is a step of its own.
pub mod Once
mod Tests
use iisintegration.Prelude.{ℕ, suc, ◌+◌, ◌-◌, ◌≡◌, Bool, true, false, if◌then◌else◌}

-- `registered` is `m_pHandler` ≠ NULL. `references` counts those to the handler, `terminations` the
-- calls of its TerminateRequest. `notifying` and `resetting` are the threads that have taken the
-- pointer in NotifyDisconnect and in ResetHandler and have not given up the reference.
pub record Context : Type 0 where
  pub registered : Bool
  pub references : ℕ
  pub terminations : ℕ
  pub notifying : ℕ
  pub resetting : ℕ

unfoldable pub set_handler : Context → Context
set_handler c = record c { references = c.references + 1; registered = true }

-- `InterlockedExchangePointer(&m_pHandler, NULL)` in NotifyDisconnect, and the test of its value.
unfoldable pub take_to_notify : Context → Context
take_to_notify c =
    if c.registered then record c { registered = false; notifying = c.notifying + 1 } else c

-- `TerminateRequest(TRUE)` and `DereferenceRequestHandler()`
unfoldable pub notify_taken : Context → Context
notify_taken c = record c {
  terminations = c.terminations + 1;
  references = c.references - 1;
  notifying = c.notifying - 1;
}

unfoldable pub take_to_reset : Context → Context
take_to_reset c =
    if c.registered then record c { registered = false; resetting = c.resetting + 1 } else c

unfoldable pub reset_taken : Context → Context
reset_taken c = record c { references = c.references - 1; resetting = c.resetting - 1 }

-- The steps of any number of threads.
pub data Turn (c : Context) : Context → Type 0 where
  notify_exchange : Turn c (take_to_notify c)
  notify_release : (n : ℕ) → c.notifying ≡ suc n → Turn c (notify_taken c)
  reset_exchange : Turn c (take_to_reset c)
  reset_release : (n : ℕ) → c.resetting ≡ suc n → Turn c (reset_taken c)

pub data Turns (c : Context) : Context → Type 0 where
  no_turn : Turns c c
  turn : {d e : Context} → Turns c d → Turn d e → Turns c e
