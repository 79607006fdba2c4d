-- ===== src/Tests.antt =====
-- Runs of the model at concrete inputs.
mod Demo
mod Client
mod Provider
mod Planning
mod Resources
mod Token
mod Upgrade
mod Gen
mod Written
mod DataSources
