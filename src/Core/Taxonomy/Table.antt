-- ===== src/Core/Taxonomy/Table.antt =====
-- app/core/event_taxonomy.py: the lists of events, in the order of the file. The events of a list are
-- evaluated one by one when the module is imported.
mod Trading
mod Investing
mod Regulatory
pub use Trading.{transaction_events, risk_events}
pub use Investing.{sip_events, market_events}
pub use Regulatory.{regulatory_events}
