-- ===== src/Client.antt =====
-- src/ui/client.cpp and include/vosfs/ui/client.hpp: the client behind the user interface.
pub mod Defs
pub mod Splitting
pub mod Tiling
pub mod Listing
pub mod Redirects
pub mod Confirmations
pub mod Completion
pub mod Starting
pub mod Writes
pub mod Deliveries
pub mod Downloads
pub mod SavingExamples
pub mod Saving
pub mod Restoring
pub mod Running
pub mod Draining
pub mod Slots
pub mod Samples
pub mod Requests
pub mod Transfers
pub mod Blocks
pub mod Responses
mod Examples
