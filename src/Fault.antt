-- ===== src/Fault.antt =====
-- The model parts of analysis/fault_injection_campaign.cpp: deterministic data, single faults and their counts.
pub mod Random
pub mod Bits
pub mod Comparison
pub mod Stream
pub mod Statistics
pub mod Regions
pub mod Diagnosis
pub mod TagFaults
pub mod State
pub mod Cases
pub mod Released
pub mod Localization
pub mod Campaigns
pub mod Families
pub mod Runs
mod Tests
mod CaseTests
mod StateTests
