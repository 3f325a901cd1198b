-- ===== src/Broker.antt =====
-- src/modules/broker: what the broker reports of an order, booked in the bots' ledgers.
pub mod PaperSync
mod Tests
