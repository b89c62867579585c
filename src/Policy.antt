-- ===== src/Policy.antt =====
-- flow-core/internal/policy: the policy catalog of a tenant and the decision over a request.
pub mod Path
pub mod Authorize
pub mod Lexical
pub mod Normalize
pub mod Store
pub mod Enforce
mod Tests
