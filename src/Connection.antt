-- ===== src/Connection.antt =====
-- DbMySQLPool/DbMySQLConnection.cpp
pub mod State
pub mod Link
pub mod Prepared
pub mod Results
pub mod Lookup
pub mod Protocol
pub mod Invariant
pub mod History
pub mod Effects
pub mod Rows
