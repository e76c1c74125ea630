-- ===== src/External.antt =====
-- The services that the program calls and does not implement, as interfaces: the operations that
-- the code uses, observers of their state, and the documented behaviour that it relies on.
pub mod Redis
pub mod Memory
pub mod Calls
pub mod Database
pub mod Kubernetes
pub mod Session
pub mod Pool
