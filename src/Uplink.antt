-- ===== src/Uplink.antt =====
-- The uplink of the OCP node: infra/netris/scripts/ocp_uplink.py, which attaches the node's port to
-- a network of the Netris controller.
pub mod Ports
pub mod Reconcile
pub mod Resolve
pub mod Guest
mod Tests
mod ResolveTests
mod GuestTests
