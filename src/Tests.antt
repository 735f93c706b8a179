-- ===== src/Tests.antt =====
-- Runs of the theorems at concrete inputs.
mod Data
mod Users
mod Predictions
mod Requests
mod Pipeline
mod Clients
mod Schema
mod Torch
mod Start
mod Boot
mod Scripts
mod Sftp
