-- ===== src/HostApi.antt =====
-- The host interfaces of crates/runtime/os-host-api: import manifests, and the hosts that filter,
-- redirect and tunnel.
pub mod Manifest
pub mod Hosts
pub mod Intercepts
pub mod Policy
mod Examples
