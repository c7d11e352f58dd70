-- ===== src/Preference.antt =====
-- Preferences of students: backend/internal/program/offering_preference.go and
-- backend/internal/preference.
pub mod Offering
pub mod Order
pub mod Responses
pub mod Complete
pub mod Eligibility
mod Tests
