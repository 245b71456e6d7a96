-- ===== src/Ftp.antt =====
-- The access to the files of a uPMU over FTP.
pub mod Annotations
pub mod Archiver
pub mod DataDir
pub mod Discovery
pub mod FileList
pub mod FileTime
pub mod Swap
pub mod Transfer
pub mod Voltage
