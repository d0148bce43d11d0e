-- ===== src/Api.antt =====
-- The API server (api/): its tables, the token cache, the agents' and the customers' endpoints.
pub mod Config
pub mod Http
pub mod Cache
pub mod Store
pub mod Agents
pub mod Accounts
pub mod Ingest
pub mod Probes
pub mod Reads
pub mod Billing
pub mod Server
pub mod Stripe
