-- ===== src/Inventory.antt =====
-- internal/inventory around the seat: its streams in the store, the command handler, the expirer, the
-- availability view, the consumers' handlers and the service.
pub mod Store
pub mod Commands
pub mod Expiry
pub mod Projection
pub mod Consumers
pub mod Service
