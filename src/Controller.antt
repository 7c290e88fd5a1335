-- ===== src/Controller.antt =====
-- internal/controller: the reconcilers of the operator.
pub mod Downstream
pub mod Zones
pub mod Routing
pub mod Services
pub mod Statuses
pub mod Caches
pub mod Challenges
pub mod Delivery
