-- ===== src/Handlers.antt =====
-- pkg/ohttp-relay/handlers/server.go: the external processor. The constants, the headers and the
-- error responses are in Response, the handling of one message in Server, the loop in Process.
pub mod Accounts
pub mod Body
pub mod Exchange
pub mod Late
pub mod Checks
pub mod Effects
pub mod Response
pub mod Return
pub mod Server
pub mod Tally
pub mod Process
