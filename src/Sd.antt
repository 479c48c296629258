-- ===== src/Sd.antt =====
-- components/sd-card-logging: the log that is kept on the SD card.
pub mod Types
pub mod Mount
pub mod Writer
