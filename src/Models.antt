-- ===== src/Models.antt =====
-- legacy/app/models: the data that the components pass to one another.
pub mod Auth
pub mod Worker
