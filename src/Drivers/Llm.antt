-- ===== src/Drivers/Llm.antt =====
-- crates/blockless-drivers/src/llm_driver: the language model driver.
pub mod Models
pub mod Tools
pub mod Contexts
pub mod Download
pub mod Provider
