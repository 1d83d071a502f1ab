-- ===== src/Sidecar.antt =====
-- launcher/internal/sidecar: the lock of the running instance.
pub mod Lock
