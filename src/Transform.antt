-- ===== src/Transform.antt =====
-- The contract of transformation backends, crates/daemon/os-transform-core/src/lib.rs. Paths are
-- taken to be UTF-8, so that `display` shows their bytes.
use os_emulation.Base.{Bool, List, Text, ascii, Result}

-- `BackendId(&'static str)`
abbrev pub BackendId : Type 0
BackendId = Text

abbrev pub integrated_recompile : BackendId
integrated_recompile = ascii "integrated"

abbrev pub simple_rewrite : BackendId
simple_rewrite = ascii "simple-rewrite"

pub record Suitability : Type 0 where
  pub suitable : Bool
  pub reasons : List Text

pub data ObtainError : Type 0 where
  unsuitable_input : Suitability → ObtainError
  transform_failed : Text → ObtainError

pub data RunAs : Type 0 where
  exec : Text → RunAs

-- `TransformBackend` for the boxed backends `B`. `obtain` takes `&mut self`, so it returns the
-- backend that it leaves.
pub record TransformBackend (B : Type 0) : Type 0 where
  pub id : B → BackendId
  pub analyze : B → Text → Result Text Suitability
  pub obtain : B → Text → Result ObtainError RunAs × B
