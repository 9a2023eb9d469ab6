-- ===== src/Api.antt =====
-- internal/api: the throttle of login attempts.
pub mod LoginThrottle
