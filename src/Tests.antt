-- ===== src/Tests.antt =====
-- Runs of the models on concrete inputs, and the theorems at inputs that meet their hypotheses.
mod Arrays
mod Queues
mod Bitmaps
mod Tables
mod Schedulers
mod Vnodes
mod Turns
mod Threads
mod Sleepers
mod Heaps
mod Spaces
mod Copies
