-- ===== src/Phasor.antt =====
-- The synchrophasor service: its receive buffer, the configuration frame, the assembly of one-second
-- buffers, and the channel that joins them (serviceDataDiscovery_C37).
pub mod Buffer
pub mod Cfg
pub mod Reformat
pub mod Channel
pub mod Command
