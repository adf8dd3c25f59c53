-- ===== src/Mintrans.antt =====
-- internal/adapters/mintrans: the register of intercity timetables, its days, and its trips.
pub mod Days
pub mod Register
pub mod Contract
pub mod Routes
pub mod Trips
