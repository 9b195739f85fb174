-- ===== src/Panel.antt =====
-- The panel store (packages/frontend/src/panelStore.ts and packages/frontend/src/state): the state of
-- the two panels, the actions on it, and the reducer with its slices, one module each.
pub mod Entry
pub mod Types
pub mod Host
pub mod Storage
pub mod LoadState
pub mod Order
pub mod Visible
pub mod Update
pub mod Navigation
pub mod Listing
pub mod Selection
pub mod Requests
pub mod Tabs
pub mod SortFilter
pub mod Search
pub mod History
pub mod Fresh
pub mod Ordering
pub mod Sizes
pub mod Bounded
pub mod Stale
pub mod Removal
pub mod Slices
pub mod Batches
pub mod Picking
pub mod Matches
pub mod Buffering
pub mod Controller
pub mod Reducer
pub mod Valid
pub mod Awaiting
pub mod Failing
pub mod Examples
mod Runs
mod Picks
mod Refusals
