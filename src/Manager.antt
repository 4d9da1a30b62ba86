-- ===== src/Manager.antt =====
-- src/manager.h, src/manager.C, src/model/testcase.h, src/main.C: the HTTP interface that takes a script and
-- starts it on the workers.
pub mod World
pub mod Connect
pub mod Orders
pub mod Request
pub mod Startup
mod Tests
