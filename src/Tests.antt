-- ===== src/Tests.antt =====
-- Runs of the model on small inputs, and the theorems of the library at inputs that meet their
-- hypotheses.
mod Data
mod Basics
mod Sessions
mod Sharing
mod Times
mod Messages
mod Streams
mod Codecs
mod Queues
mod Frames
mod Connections
mod Hearing
mod Lifetimes
mod Interleaving
