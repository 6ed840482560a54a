-- ===== src/Plan.antt =====
-- install_plan.go: the plan of an installation, its validation and its reviews.
pub mod Identity
pub mod Types
pub mod Validate
pub mod Review
