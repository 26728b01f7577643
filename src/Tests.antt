-- ===== src/Tests.antt =====
-- Runs at concrete inputs, and the theorems of the other modules applied to them.
mod Segment
mod Group
mod Resources
mod Queues
mod Programs
mod Cache
mod Stores
mod Params
mod Writer
mod Generator
mod Lookups
mod Requests
mod Areas
mod Bitmaps
