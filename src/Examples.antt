-- ===== src/Examples.antt =====
-- Runs of the definitions on concrete inputs, and the properties applied to them.
mod Wire
mod Record
mod Calls
mod Publish
mod Account
mod Folders
mod Groups
mod Stickers
mod Timers
mod Manifest
mod Sync
mod Records
mod Drain
mod Chats
mod Changes
mod Seen
mod Flagged
