-- ===== src/Gateway.antt =====
-- What the services of the gateway share (uPMUgateway).
pub mod CommandQueue
pub mod Registry
pub mod Sharing
pub mod Startup
