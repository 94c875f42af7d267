-- ===== src/Auth.antt =====
-- apps/control-plane/internal/auth: who is calling, and who may call what.
pub mod Rbac
pub mod Claims
pub mod Validator
pub mod Jwks
pub mod Mapping
pub mod Http
pub mod Grpc
pub mod Authn
pub mod Refresh
pub mod Authz
pub mod Abac
pub mod Chain
