-- ===== src/Sdk.antt =====
-- The class PushSDK of src/core/core.h and src/core/core.cpp.
pub mod Groups
pub mod CallMap
pub mod State
pub mod Calls
pub mod Session
pub mod Messages
pub mod Methods
pub mod Handlers
pub mod Threads
pub mod Lifecycle
pub mod Run
pub mod Correlation
pub mod Delivery
pub mod Outgoing
pub mod Exchange
pub mod Refinement
pub mod Pending
pub mod Steps
pub mod Invariant
