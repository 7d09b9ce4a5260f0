-- ===== src/Tests.antt =====
-- Runs of the model at concrete inputs, and the theorems applied to them.
pub mod Addresses
pub mod Handles
pub mod Contexts
pub mod Linked
pub mod Settings
pub mod Streams
pub mod Models
pub mod Providers
pub mod Tools
pub mod Endings
pub mod Commands
pub mod Registrations
pub mod Programs
pub mod Running
