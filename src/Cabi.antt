-- ===== src/Cabi.antt =====
-- runtime/src/cabi: the canonical ABI of component values.
pub mod Types
pub mod Despecialized
pub mod Layout
pub mod Flatten
pub mod Float
pub mod Lanes
pub mod Table
pub mod Handles
pub mod Memory
pub mod Value
pub mod Access
pub mod Bulk
pub mod Lists
pub mod Strings
pub mod Store
pub mod Lift
pub mod Lower
pub mod Spill
