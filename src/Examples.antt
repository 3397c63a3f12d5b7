-- ===== src/Examples.antt =====
-- Concrete inputs at which the theorems are applied.
mod Data
mod TeamCases
mod NoteCases
mod GrantCases
mod UserCases
mod UploadCases
mod SweepCases
mod ListCases
mod ConfigCases
mod SessionCases
