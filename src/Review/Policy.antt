-- ===== src/Review/Policy.antt =====
-- internal/review/policy.go: protected paths and their patterns.
use machinist.Base.{
  Text, codes, text_eq, Bool, true, false, ◌&&◌, ◌||◌, not, none, some, List, [], ◌∷◌, is_empty,
  any, if◌then◌else◌, split, trim_space, trim_prefix, add_key, sort_strings,
}
use machinist.Base.Glob.{path_match}
use machinist.Review.Types.{Severity, blocker, high}

abbrev pub default_protected_paths : List Text
default_protected_paths =
    codes ".github/workflows/**"
    ∷ codes ".github/dependabot.yml"
    ∷ codes "docs/governance/**"
    ∷ codes "internal/controlplane/web/dist/**"
    ∷ codes "LICENSE"
    ∷ codes "SECURITY.md"
    ∷ []

abbrev pub default_blocking_severities : List Severity
default_blocking_severities = blocker ∷ high ∷ []

abbrev pub is_star : Text → Bool
is_star = text_eq (codes "**")

-- `ok, err := path.Match(p, c); err == nil && ok`
unfoldable pub segment_matches : Text → Text → Bool
segment_matches p c = elim (path_match p c) [ none ↦ false | some b ↦ b ]

-- The loop `for index := range candidate` over the non-empty suffixes.
abbrev pub some_suffix : (List Text → Bool) → List Text → Bool
some_suffix rest [] = false
some_suffix rest (c ∷ cs) = rest (c ∷ cs) || some_suffix rest cs

abbrev pub match_head : Text → (List Text → Bool) → List Text → Bool
match_head p rest [] = false
match_head p rest (c ∷ cs) = segment_matches p c && rest cs

abbrev pub match_star : Bool → (List Text → Bool) → List Text → Bool
match_star last rest cs = if last then true else some_suffix rest cs

unfoldable pub match_segments : List Text → List Text → Bool
match_segments [] cs = is_empty cs
match_segments (p ∷ ps) cs =
    if is_star p
    then match_star (is_empty ps) (match_segments ps) cs
    else match_head p (match_segments ps) cs

unfoldable pub match_path : Text → Text → Bool
match_path pattern candidate = match_segments (split b'/' pattern) (split b'/' candidate)

-- A path as the patterns read it.
unfoldable pub clean_path : Text → Text
clean_path candidate = trim_prefix (codes "./") (trim_space candidate)

abbrev pub covered : List Text → Text → Bool
covered patterns path = any (λ p. match_path p path) patterns

-- The loop over the changed paths, with the keys seen so far.
unfoldable pub collect_matches : List Text → List Text → List Text → List Text
unfolding clean_path
collect_matches patterns seen [] = seen
collect_matches patterns seen (candidate ∷ rest) =
    let clean = clean_path candidate in
    collect_matches patterns
      (if not (is_empty clean) && covered patterns clean then add_key clean seen else seen) rest

unfoldable pub protected_matches : List Text → List Text → List Text
unfolding collect_matches
protected_matches patterns changed = sort_strings (collect_matches patterns [] changed)
