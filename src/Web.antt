-- ===== src/Web.antt =====
-- apps/web/src: what a browser keeps of its connection to the server.
pub mod Wire
pub mod Link
pub mod Transport
pub mod Mock
pub mod Crossing
pub mod Stored
pub mod Errors
pub mod PromptSet
pub mod JoinLink
