-- ===== src/Daemon/Registry.antt =====
-- The map of backends in crates/daemon/os-daemon/src/lib.rs, a `HashMap` keyed by text, and the
-- sorting of its keys.
use os_emulation.Base.{if◌then◌else◌, List, [], ◌∷◌, Option, none, some, Text, text_eq, text_le}

module _ {B : Type 0} where
  unfoldable pub get : List (Text × B) → Text → Option B
  get [] k = none
  get ((j, b) ∷ m) k = if text_eq j k then some b else get m k

  unfoldable pub insert : Text → B → List (Text × B) → List (Text × B)
  insert k v [] = (k, v) ∷ []
  insert k v ((j, b) ∷ m) = if text_eq j k then (k, v) ∷ m else (j, b) ∷ insert k v m

  unfoldable pub keys : List (Text × B) → List Text
  keys [] = []
  keys ((j, b) ∷ m) = j ∷ keys m

-- `ids.sort()`
unfoldable pub insert_sorted : Text → List Text → List Text
insert_sorted k [] = k ∷ []
insert_sorted k (j ∷ ks) = if text_le k j then k ∷ j ∷ ks else j ∷ insert_sorted k ks

unfoldable pub sort : List Text → List Text
unfolding insert_sorted
sort [] = []
sort (k ∷ ks) = insert_sorted k (sort ks)
