-- ===== src/Tests.antt =====
-- Runs of the models at small inputs, and each theorem at an input that meets its hypotheses.
mod Samples
mod Bits
mod Space
mod Files
mod Striping
mod Compare
mod Journal
mod Queue
mod Session
mod Playing
mod Inodes
mod Devices
mod Shadow
