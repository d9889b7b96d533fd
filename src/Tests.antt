-- ===== src/Tests.antt =====
-- The theorems at concrete inputs.
mod Rings
mod Concurrent
mod Values
mod Streams
mod Formats
mod Buffers
mod Audio
mod Timed
mod Stamps
mod Addresses
mod Times
mod Wrappers
mod Layouts
