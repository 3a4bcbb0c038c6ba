-- ===== src/Wire.antt =====
-- The 9P2000 wire format: the files p9.go, packt.go, packr.go and unpack.go of package p.
pub mod Result
pub mod Types
pub mod Ints
pub mod Stat
pub mod Pack
pub mod PackT
pub mod PackR
pub mod Unpack
pub mod Message
