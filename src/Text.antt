-- ===== src/Text.antt =====
-- SipPlatform/StringUtility.cpp: searching and replacing in texts.
pub mod Find
pub mod Replace
pub mod Trim
pub mod Split
pub mod Case
