-- ===== src/Tests.antt =====
-- Runs of the theorems on concrete inputs.
mod Outside
mod Accounts
mod Formats
mod Rooms
mod Uploads
mod Buckets
mod Sharing
mod Worker
mod Settings
mod Server
mod System
mod Ownership
mod Pipeline
mod Boot
