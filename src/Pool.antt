-- ===== src/Pool.antt =====
-- DbMySQLPool/DbMySQLPool.cpp
pub mod State
pub mod Calls
pub mod Ownership
pub mod Lifecycle
pub mod Borrow
