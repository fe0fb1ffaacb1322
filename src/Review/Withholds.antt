-- ===== src/Review/Withholds.antt =====
-- The engine of internal/review/engine.go withholds approval and never grants it.
use machinist.Base.{◌≤◌, Text, ◌≡◌, Bool, true, false, ◌&&◌, not, List, arith, any, All, is_empty}
use machinist.Review.Types.{ready, strictness, severity_eq, Finding, Report, blocking, stricter}
use machinist.Review.Policy.{covered, clean_path, protected_matches}
use machinist.Review.Engine.{
  Engine, engine_protected_paths, engine_blocking_severities, merge_paths, decide,
}

-- A changed path that some pattern covers.
abbrev pub touches : List Text → Text → Bool
touches patterns path = not (is_empty (clean_path path)) && covered patterns (clean_path path)

-- What the reviewer and the diff must show for an approval to stand.
pub record Approvable (e : Engine) (changed : List Text) (r : Report) : Type 0 where
  pub said_ready : r.verdict ≡ ready
  pub none_blocking :
      All
        (λ (f : Finding). any (severity_eq f.severity) (engine_blocking_severities e) ≡ false)
        r.findings
  pub none_declared : All (λ (p : Text). is_empty p ≡ true) r.protected_paths
  pub none_touched : All (λ p. touches (engine_protected_paths e) p ≡ false) changed
  pub not_high_risk : r.high_risk ≡ false

-- The protected paths of an outcome, as Evaluate joins them.
abbrev found_paths : Engine → List Text → Report → List Text
found_paths e changed r =
    merge_paths r.protected_paths (protected_matches (engine_protected_paths e) changed)

-- The facts by which the code decides.
record Decided (e : Engine) (changed : List Text) (r : Report) : Type 0 where
  said_ready : r.verdict ≡ ready
  no_finding : is_empty (blocking (engine_blocking_severities e) r) ≡ true
  no_path : is_empty (found_paths e changed r) ≡ true
  not_high_risk : r.high_risk ≡ false

module _ (e : Engine) (changed : List Text) (r : Report) where
  -- Policy only ever moves a verdict up.
  strictness-le-decide : strictness r.verdict ≤ strictness (decide e changed r).verdict
  unfolding decide stricter
  strictness-le-decide = ground arith
