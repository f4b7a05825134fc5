-- ===== src/Tests.antt =====
-- Runs on concrete data, and the theorems at inputs that meet their hypotheses.
mod Samples
mod Pipeline
mod Commands
mod Campaigns
mod Errors
mod Resumes
mod Reports
mod Machines
mod Requests
mod Unified
mod Prompting
