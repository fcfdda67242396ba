-- ===== src/Crypto.antt =====
-- internal/crypto: the value cipher, and the envelopes of data keys with their rotation.
pub mod Cipher
pub mod Envelope
pub mod Rewrap
