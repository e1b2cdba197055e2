-- ===== src/Examples.antt =====
-- The theorems at concrete inputs, a module for each part.
mod Reads
mod Maps
mod Codecs
mod Units
mod Timing
mod Writes
mod Declared
mod Links
mod Pools
