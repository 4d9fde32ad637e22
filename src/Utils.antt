-- ===== src/Utils.antt =====
-- utils/: locks and containers.
pub mod Lock
pub mod Dictionary
pub mod FastStack
pub mod InlineStack
pub mod RingList
pub mod Stack
