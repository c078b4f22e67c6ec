-- ===== src/Tests.antt =====
-- Tests of the definitions, and the properties at concrete inputs.
mod Data
mod Queue
mod Mail
mod Copy
mod Sign
mod Create
mod Routes
mod Events
mod Feed
mod Settings
mod Gate
mod Send
mod Logs
