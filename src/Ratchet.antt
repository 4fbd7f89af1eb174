-- ===== src/Ratchet.antt =====
-- client/internal/contact/ratchet: key derivation (hkdf.go), one chain of message keys
-- (mratchet.go) and the ratchet over the chains (dhratchet.go).
pub mod Hkdf
pub mod MessageRatchet
pub mod DhRatchet
