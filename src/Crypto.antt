-- ===== src/Crypto.antt =====
-- kernel/crypto: the block cipher, the hash and the keyed hash that the database and the
-- capabilities use.
pub mod Aes
pub mod Pkcs7
pub mod Sha256
pub mod Hmac
