-- ===== src/Pool.antt =====
-- shiitake-server/src/pool: the worker pool and the registry of handles and sessions.
pub mod State
pub mod Ids
pub mod Outcome
pub mod Occupancy
pub mod Handles
pub mod Dispatch
pub mod Workers
pub mod Sessions
pub mod Commands
pub mod Terminal
pub mod Sweeper
pub mod Keepalive
pub mod Sections
pub mod Ends
pub mod Loss
pub mod Closing
pub mod Rotation
pub mod Refusal
pub mod Routing
pub mod Attachment
pub mod Submission
pub mod Expiry
pub mod Unused
pub mod Pings
pub mod Reservation
pub mod Listing
