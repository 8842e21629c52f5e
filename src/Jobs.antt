-- ===== src/Jobs.antt =====
-- services/rca_job_service.py, with the tables of db_models.py.
pub mod Rows
pub mod Marks
pub mod Access
pub mod Listing
pub mod Service
mod Tests
