-- ===== src/Stores.antt =====
-- The stores that a process of the API keeps in memory: the read cache
-- (backend/src/services/read-cache.ts), the idempotency records (backend/src/services/idempotency.ts
-- and backend/src/middleware/idempotency.ts) and the health of the RPC providers
-- (backend/src/services/rpc-provider-health.ts).
pub mod ReadCache
pub mod Idempotency
pub mod ProviderHealth
