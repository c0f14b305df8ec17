-- ===== src/Tests.antt =====
-- Runs of the model at concrete inputs, and every theorem at an input that meets its hypotheses.
mod World
mod TopUp
mod Transaction
mod Webhook
mod RateLimit
mod Reconciliation
mod Account
mod Gorm
mod Access
mod Books
mod System
mod Requests
