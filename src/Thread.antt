-- ===== src/Thread.antt =====
-- DbMySQLPool/DbMySQLThread.cpp
pub mod Defs
pub mod Laws
