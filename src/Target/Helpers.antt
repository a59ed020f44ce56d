-- ===== src/Target/Helpers.antt =====
-- The names of the runtime's helpers, crates/target/os-target-native/src/native_helpers.rs.
use os_emulation.Base.{Text, ascii}

pub record NativeHelpers : Type 0 where
  pub load_u8 : Text
  pub load_i8 : Text
  pub load_u16 : Text
  pub load_i16 : Text
  pub load_u32 : Text
  pub load_i32 : Text
  pub load_u64 : Text
  pub store_u8 : Text
  pub store_u16 : Text
  pub store_u32 : Text
  pub store_u64 : Text
  pub ecall : Text

abbrev pub defaults : NativeHelpers
defaults = record {
  load_u8 = ascii "os_load_u8";
  load_i8 = ascii "os_load_i8";
  load_u16 = ascii "os_load_u16";
  load_i16 = ascii "os_load_i16";
  load_u32 = ascii "os_load_u32";
  load_i32 = ascii "os_load_i32";
  load_u64 = ascii "os_load_u64";
  store_u8 = ascii "os_store_u8";
  store_u16 = ascii "os_store_u16";
  store_u32 = ascii "os_store_u32";
  store_u64 = ascii "os_store_u64";
  ecall = ascii "os_ecall";
}
