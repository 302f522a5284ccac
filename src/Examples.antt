-- ===== src/Examples.antt =====
-- The theorems at concrete inputs, and runs of the definitions.
mod ListBucket
mod Futures
mod Diffs
mod Settings
mod Stores
mod Editors
mod Elections
mod Wire
mod Editing
mod Document
mod Cluster
mod Replication
