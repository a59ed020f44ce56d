-- ===== src/Codesign.antt =====
-- The signing of crates/daemon/os-codesign-macho/src/lib.rs: what is asked of the tool `codesign`, the
-- property lists that it is given, and how its report is read.
pub mod Texts
pub mod Hex
pub mod HexLaws
pub mod Base64
pub mod Base64Laws
pub mod Plist
pub mod PlistLaws
pub mod ConstraintLaws
pub mod Constrains
pub mod Report
pub mod Signing
pub mod SigningLaws
pub mod Accepted
mod Examples
mod SigningExamples
