-- ===== src/Storage.antt =====
-- storage/: the low-level file format.
pub mod Format
pub mod Crc
pub mod Codes
pub mod Writer
pub mod Reader
pub mod Items
pub mod Frames
pub mod Rescuer
