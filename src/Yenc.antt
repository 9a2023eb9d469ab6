-- ===== src/Yenc.antt =====
-- internal/yenc: decoding of yEnc article bodies, as the build without the rapidyenc tag does it.
pub mod Lines
pub mod Header
pub mod Decoder
