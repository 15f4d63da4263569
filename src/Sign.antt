-- ===== src/Sign.antt =====
-- contract/sign: framing, signing and verification of command, result and trust-state envelopes.
pub mod Frame
pub mod Keys
pub mod Command
pub mod Envelope
pub mod TrustState
pub mod Domains
mod Examples
