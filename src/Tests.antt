-- ===== src/Tests.antt =====
-- The theorems at concrete inputs, and runs of the code.
mod Lists
mod Accounts
mod Cleaning
mod Parsing
mod Sessions
mod Queue
mod Network
