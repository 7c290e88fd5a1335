-- ===== src/Webhook.antt =====
-- internal/webhook/v1alpha1: the validating admission webhooks.
pub mod Admission
pub mod Zone
pub mod Service
pub mod DnsEndpoint
pub mod HealthCheckProfile
pub mod Project
pub mod Requests
