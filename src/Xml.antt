-- ===== src/Xml.antt =====
-- XmlParser: the XML element, its parser and printer, and the searches in it.
pub mod Attributes
pub mod Element
pub mod Parse
pub mod Progress
pub mod Print
pub mod Runs
pub mod Steps
pub mod AttributeRuns
pub mod TagRuns
pub mod Writable
pub mod ContentRuns
pub mod RoundTrip
pub mod Select
pub mod Build
pub mod Search
pub mod Matches
pub mod Children
pub mod Updates
pub mod AttributeLaws
pub mod Numbers
