-- ===== src/Gatekeeper/Paths.antt =====
-- internal/gatekeeper/tiers.go: protected paths and the documents that Green admits.
use machinist.Base.{
  ℕ, ltb, Text, codes, text_eq, ◌==◌, Bool, true, false, ◌&&◌, ◌||◌, not, Option, none, some, List,
  [], ◌∷◌, ◌++◌, is_empty, any, filter, length, take, if◌then◌else◌, split, trim_space, trim_prefix,
  to_lower, has_prefix, contains, sort_strings,
}
use machinist.Review.Policy.{is_star, match_star, match_head}
use machinist.Gatekeeper.Request.{ChangedFile, is_mode_file, Request, paths}
use machinist.Gatekeeper.Decision.{NotGreen, path_empty, not_plain, not_markdown, outside_docs}

abbrev pub protected_floor : List Text
protected_floor =
    codes ".github/**"
    ∷ codes "docs/governance/**"
    ∷ codes "AGENTS.md"
    ∷ codes "scripts/**"
    ∷ codes "infra/**"
    ∷ []

abbrev pub agent_configuration_patterns : List Text
agent_configuration_patterns =
    codes "AGENTS.md"
    ∷ codes "CLAUDE.md"
    ∷ codes "docs/governance/**"
    ∷ codes "**/prompts/**"
    ∷ codes ".claude/**"
    ∷ codes ".github/agents/**"
    ∷ []

unfoldable pub match_segments : List Text → List Text → Bool
match_segments [] cs = is_empty cs
match_segments (p ∷ ps) cs =
    if is_star p
    then match_star (is_empty ps) (match_segments ps) cs
    else match_head p (match_segments ps) cs

unfoldable pub match_path : Text → Text → Bool
match_path pattern candidate = match_segments (split b'/' pattern) (split b'/' candidate)

-- A path that is not empty and that some pattern matches.
abbrev pub hit : List Text → Text → Bool
hit patterns path = not (is_empty path) && any (λ p. match_path p path) patterns

unfoldable pub protected_hits : Request → List Text → List Text
protected_hits r patterns = sort_strings (filter (hit patterns) (paths r))

-- The loop of mergePatterns over one list: the patterns merged so far are those seen.
unfoldable pub add_patterns : List Text → List Text → List Text
add_patterns merged [] = merged
add_patterns merged (pattern ∷ rest) =
    let clean = trim_space pattern in
    add_patterns
      (if is_empty clean
        then merged
        else if contains clean merged
        then merged
        else merged ++ clean ∷ [])
      rest

unfoldable pub merge_patterns : List Text → List Text → List Text → List Text
merge_patterns a b c = sort_strings (add_patterns (add_patterns (add_patterns [] a) b) c)

-- path.Ext: from the last dot of the last segment, or nothing.
abbrev extension_from : ℕ → Text → Bool × Text → Bool × Text
extension_from c s (closed, found) =
    if closed
    then (closed, found)
    else if c == b'/'
    then (true, [])
    else if c == b'.'
    then (true, c ∷ s)
    else (false, [])

scan_extension : Text → Bool × Text
scan_extension [] = (false, [])
scan_extension (c ∷ s) = extension_from c s (scan_extension s)

unfoldable pub extension : Text → Text
unfolding scan_extension
extension path = (scan_extension path).1

-- isGreenPath; `none` admits the file.
unfoldable pub green_refusal : ChangedFile → Option NotGreen
green_refusal file =
    let clean = trim_prefix (codes "./") (trim_space file.path) in
    if is_empty clean
    then some path_empty
    else if not (is_mode_file file.mode)
    then some (not_plain clean file.mode)
    else if not (text_eq (to_lower (extension clean)) (codes ".md"))
    then some (not_markdown clean)
    else if text_eq clean (codes "README.md") || has_prefix (codes "docs/") clean
    then none
    else some (outside_docs clean)

unfoldable pub short : Text → Text
short sha = let clean = trim_space sha in if ltb 12 (length clean) then take 12 clean else clean
