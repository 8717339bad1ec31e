-- ===== src/Examples.antt =====
-- The theorems at concrete inputs, and runs of the models.
mod Clocks
mod Records
mod Stores
mod Streams
mod Sync
mod Frames
mod Limits
mod Logs
mod Payloads
mod Peers
mod Popups
mod Savers
mod Displays
mod Snapshots
mod Typing
