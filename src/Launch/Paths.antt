-- ===== src/Launch/Paths.antt =====
-- The tests on paths of internal/launch: withinOrEqual, pathWithin, pathsOverlap and
-- protectedWritableRoot.
pub mod Laws
use ai_config_selector.Prelude.{
  Bool, true, false, not, ◌&&◌, ◌||◌, Option, none, some, List, [], ◌∷◌,
}
use ai_config_selector.Prelude.Bytes.{Bytes, codes, bytes_eq}
use ai_config_selector.GoPath.{dot, rel}
use ai_config_selector.GoPath.Names.{escapes}
use ai_config_selector.GoPath.Rel.{stays}

unfoldable pub within_or_equal : Bytes → Bytes → Bool
within_or_equal root candidate = stays (rel root candidate)

-- The test of pathWithin on what Rel returns.
abbrev pub goes_down : Option Bytes → Bool
goes_down none = false
goes_down (some relative) = not (bytes_eq relative dot) && not (escapes relative)

unfoldable pub path_within : Bytes → Bytes → Bool
path_within root candidate = goes_down (rel root candidate)

unfoldable pub paths_overlap : Bytes → Bytes → Bool
paths_overlap first second =
    bytes_eq first second || (path_within first second || path_within second first)

abbrev pub system_roots : List Bytes
system_roots =
    codes "/System"
    ∷ codes "/Library"
    ∷ codes "/private"
    ∷ codes "/dev"
    ∷ codes "/usr"
    ∷ codes "/bin"
    ∷ codes "/sbin"
    ∷ []

unfoldable pub under_any : List Bytes → Bytes → Bool
under_any [] candidate = false
under_any (root ∷ roots) candidate =
    (bytes_eq candidate root || path_within root candidate) || under_any roots candidate

unfoldable pub protected_writable_root : Bytes → Bool
protected_writable_root candidate = under_any system_roots candidate
