-- ===== src/Lifecycle.antt =====
-- legacy/app/core/redis.py, legacy/app/core/db.py and legacy/app/main.py: connections and servers,
-- from the start to the end of the process.
pub mod Settings
pub mod Engine
pub mod Logging
pub mod Manager
pub mod Session
pub mod Servers
pub mod Main
mod Tests
