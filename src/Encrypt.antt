-- ===== src/Encrypt.antt =====
-- The two XOR ciphers of `cpk/encrypt`: the one of @UTF tables and the one of Persona 5 Royal files.
pub mod Table
pub mod P5r
pub mod Examples
