-- ===== src/Adapters.antt =====
-- policyengine_observability/adapters and integrations: the hooks of web frameworks and HTTP clients
-- around the runtime.
pub mod Fastapi
pub mod Flask
pub mod Httpx
