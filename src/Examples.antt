-- ===== src/Examples.antt =====
-- The theorems at concrete inputs, and runs of the definitions.
mod Clock
mod Frames
mod Documents
mod Tables
mod Threads
mod Lines
mod Answers
mod Arguments
mod Gpus
mod Runtimes
mod Polls
mod Latest
mod Readers
mod Ending
mod Addresses
