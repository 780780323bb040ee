-- ===== src/Plugins.antt =====
-- Plugins: their versions, their registry, and the loader (src/plugins/loader.py and interface.py).
pub mod Version
pub mod Registry
pub mod Loader
mod Tests
