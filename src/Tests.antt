-- ===== src/Tests.antt =====
-- Small runs of the model, and each property of the results at one of them.
mod Accounts
mod Access
mod Tokens
mod Requests
mod Work
mod Endpoints
mod Board
mod Upkeep
mod Service
mod Backups
