-- ===== src/Runtime/Files.antt =====
-- Node's file system and paths, as the code calls them. The file system is a parameter: what a call
-- gives or throws.
use onetrackmind.Common.{Bool, Option, List, [], ◌∷◌, Text, Text-Eq, ◌==◌, ◌||◌}
use onetrackmind.Common.Results.{Thrown, Throws}

-- A value thrown by `fs`, with its `code` where that is a string.
pub record FsError : Type 0 where
  pub thrown : Thrown
  pub code : Option Text

pub record Files : Type 0 where
  pub read_dir : Text → Throws FsError (List Text)
  pub read_file : Text → Throws FsError Text
  pub join : Text → Text → Text

-- `String.prototype.endsWith`
unfoldable pub ends_with : Text → Text → Bool
ends_with [] suffix = [] == suffix
ends_with (c ∷ s) suffix = (c ∷ s) == suffix || ends_with s suffix
