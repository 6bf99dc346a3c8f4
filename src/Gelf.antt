-- ===== src/Gelf.antt =====
-- The Graylog client, org/graylog2/gelfclient.
pub mod SenderThread
pub mod Level
pub mod JsonEncoder
