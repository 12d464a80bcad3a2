-- ===== src/Tasks.antt =====
-- The Celery tasks of src/tasks. Celery itself, which delivers
-- a task, once or more often, and retries it, is not modelled.
pub mod Dispatch
pub mod Delivery
pub mod Works
pub mod Drain
use whatsapp_api.Base.{ℕ, Bool, true, false, String}
use whatsapp_api.Base.Exec.{Action}
use whatsapp_api.Errors.{Error, prodaxis, Kind}
use whatsapp_api.Store.{Db}
use whatsapp_api.Store.Sessions.{session_scope}
use whatsapp_api.Webhooks.Processing.{process_event}

-- The tuple `autoretry_for` of `send_recipient`.
unfoldable is_retried : Error → Bool
is_retried (prodaxis f) = elim f.kind [
  | Kind.meta_rate_limit ↦ true
  | Kind.rate_limit_exceeded ↦ true
  | _ ↦ false
]
is_retried _ = false

-- `process_webhook_task`
unfoldable pub process_webhook : (Error → String) → ℕ → Action Db (Unit {0})
process_webhook describe event_id =
    session_scope (λ (s : Db). s) (λ d s. d) (process_event describe event_id)
