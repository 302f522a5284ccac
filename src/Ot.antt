-- ===== src/Ot.antt =====
-- internal/ot: changesets and the EasySync operations on them.
pub mod Changeset
pub mod Apply
pub mod TextOrder
pub mod Meaning
pub mod Cursor
pub mod Compose
pub mod Follow
pub mod Runes
pub mod Diff
