-- ===== src/Page.antt =====
-- Guest memory and paging, crates/page/os-page/src/lib.rs and backends.rs: the definitions are in
-- Types, OnDemand, Linear and SharedTable, and the other modules prove.
pub mod Types
pub mod OnDemand
pub mod Linear
pub mod Words
pub mod OnDemandLaws
pub mod LinearLaws
pub mod LinearAccess
pub mod Agreement
pub mod SharedTable
pub mod SharedTableLaws
pub mod SecurityDirectory
mod Examples
