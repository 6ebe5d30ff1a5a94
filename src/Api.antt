-- ===== src/Api.antt =====
-- recovery-orchestrator/internal/api: what each request is answered, in terms of the status code and
-- the fields of the JSON body. A handler changes the world only through the manager and the store.
-- Reading and decoding of bodies (io, encoding/json) is a parameter: a handler takes what they gave,
-- `none` for an error.
pub mod Response
pub mod Webhook
pub mod Calls
pub mod Views
pub mod Deliveries
pub mod QueueView
pub mod Amounts
pub mod Router
