-- ===== src/Examples.antt =====
-- Tests and instances of the theorems at concrete inputs, over a toy implementation of the
-- cryptography (Toy).
mod Toy
mod Ratchets
mod Bytes
mod Clients
mod Traffic
mod Startup
mod Codec
mod Restarts
mod Overwriting
mod Burials
mod Sessions
mod Database
mod Pages
