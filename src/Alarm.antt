-- ===== src/Alarm.antt =====
-- flow-core/internal/alarmmaterializer: alarm intents from the data plane become alarm rows.
pub mod Intent
pub mod Apply
pub mod Postgres
pub mod Replies
mod Tests
