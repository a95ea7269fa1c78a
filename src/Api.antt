-- ===== src/Api.antt =====
-- api (app): the endpoints, over the services and one session of the database.
pub mod Responses
pub mod Audited
pub mod Accounts
pub mod Sessions
pub mod Trail
pub mod Recorded
pub mod Logout
pub mod Admin
pub mod Jobs
pub mod Events
pub mod Reset
pub mod Work
