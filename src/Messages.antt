-- ===== src/Messages.antt =====
-- The way of a message between the applications of applications/: from the buttons to the payload of a
-- request and the capsule, and from a reply to the LEDs.
pub mod Sending
pub mod Showing
pub mod Wiring
pub mod Posting
pub mod OnLine
pub mod Distinct
pub mod Answering
pub mod Fetching
pub mod Receiving
pub mod Recording
mod Tests
mod ReplyTests
mod LineTests
