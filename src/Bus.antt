-- ===== src/Bus.antt =====
-- internal/bus: the embedded NATS server and its routes.
pub mod Routes
pub mod Server
pub mod LogAdapter
