-- ===== src/Tests.antt =====
-- Runs of the model at concrete inputs, and the samples that they share.
pub mod Samples
pub mod Connection
pub mod Pool
pub mod Queue
pub mod Thread
pub mod Text
pub mod Xml
pub mod Apps
pub mod Tools
pub mod Platform
