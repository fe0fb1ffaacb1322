-- ===== src/Jobs/ErrorClass.antt =====
-- internal/config/errorclass.go: why an attempt failed, and what a route may fall back on.
use machinist.Base.{
  Text, codes, Bool, true, false, Option, none, some, List, [], ◌∷◌, map, filter, sort_strings,
  is_some,
}
use machinist.Base.Dict.{lookup}

-- The map fallbackable.
abbrev pub fallbackable : List (Text × Bool)
fallbackable =
    (codes "rate_limit", true)
    ∷ (codes "capacity", true)
    ∷ (codes "transient", true)
    ∷ (codes "transport", true)
    ∷ (codes "harness_crash", true)
    ∷ (codes "timeout", true)
    ∷ (codes "model_unavailable", true)
    ∷ (codes "test_failure", true)
    ∷ (codes "configuration", false)
    ∷ (codes "authentication", false)
    ∷ (codes "policy", false)
    ∷ (codes "cancelled", false)
    ∷ (codes "unknown", false)
    ∷ []

-- ErrorClass.Valid
unfoldable pub class_valid : Text → Bool
class_valid c = is_some (lookup c fallbackable)

-- Go's zero for a missing key.
abbrev or_false : Option Bool → Bool
or_false none = false
or_false (some b) = b

-- ErrorClass.AllowsFallback
unfoldable pub allows_fallback : Text → Bool
allows_fallback c = or_false (lookup c fallbackable)

-- FallbackClasses
unfoldable pub fallback_classes : List Text
fallback_classes =
    sort_strings (map (λ (e : Text × Bool). e.0) (filter (λ (e : Text × Bool). e.1) fallbackable))
