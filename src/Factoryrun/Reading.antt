-- ===== src/Factoryrun/Reading.antt =====
-- The loop of Parse reads each line of a marker as its key and its value
-- (internal/factoryrun/marker.go).
use machinist.Base.{
  ℕ, ◌==◌, ◌≡◌, refl, sym, ap, ◌∙◌, Text, text_eq, true, false, Option, none, List, [], ◌∷◌, ◌++◌,
  All, arith, any, is_empty, is_space, trim_left, trim_space, split, Bool-cases, inl, inr,
}
use mathlib.Core.List.{append_assoc, append-nil}
use machinist.Base.Result.{Result, ok, err, ◌>>=◌}
use machinist.Factoryrun.Evidence.{Check, Evidence, check_problem, state_valid}
use machinist.Factoryrun.Pieces.{PlainCheck, parse_check-check_line, is_empty-eq}
use machinist.Factoryrun.Marker.{
  ParseError, print_lines, assign, read_line, read_lines, optional, check_lines,
}
use machinist.Factoryrun.Lines.{
  Plain, trim_space-Plain, append-Plain, is_empty-append, split-append, cut-append,
}

-- A line as Render writes it.
pub record PlainLine (l : Text × Text) : Type 0 where
  pub key : Plain l.0
  pub named : is_empty l.0 ≡ false
  pub no_colon : any (λ b. b == b':') l.0 ≡ false
  pub value : Plain l.1
  pub some_value : is_empty l.1 ≡ false

regroup :
    (key value rest : Text)
    → key ++ b':' ∷ b' ' ∷ (value ++ 10 ∷ rest) ≡ (key ++ b':' ∷ b' ' ∷ value) ++ 10 ∷ rest
regroup [] value rest = refl
regroup (c ∷ key) value rest = ap (◌∷◌ c) (regroup key value rest)

bind_ext :
    (m : Result ParseError Evidence) (f g : Evidence → Result ParseError Evidence)
    → ((e : Evidence) → f e ≡ g e)
    → (m >>= f) ≡ (m >>= g)
bind_ext (ok e) f g h = h e
bind_ext (err problem) f g h = refl

module _ (print_time : ℕ → Text) (parse_time : Text → Option ℕ) where
  -- The lines as pairs, one assignment each.
  unfoldable pub assign_all : List (Text × Text) → Evidence → Result ParseError Evidence
  assign_all [] e = ok e
  assign_all ((key, value) ∷ rest) e =
      assign print_time parse_time key value e >>= λ e'. assign_all rest e'

  read_line-assign :
      (l : Text × Text) (e : Evidence)
      → PlainLine l
      → read_line print_time parse_time (l.0 ++ b':' ∷ b' ' ∷ l.1) e
        ≡ assign print_time parse_time l.0 l.1 e
  unfolding read_line trim_space trim_left is_space
  read_line-assign l e h =
      let line = l.0 ++ b':' ∷ b' ' ∷ l.1 in
      let whole =
        trim_space-Plain line
          (append-Plain l.0 (b':' ∷ b' ' ∷ []) l.1 h.key h.named refl h.value h.some_value) in
      let filled = is_empty-append l.0 (b':' ∷ b' ' ∷ l.1) refl in
      let parts = cut-append b':' l.0 (b' ' ∷ l.1) h.no_colon in
      ground (arith, whole, filled, parts, trim_space-Plain l.0 h.key, trim_space-Plain l.1 h.value)

  pub read_lines-assign_all :
      (ls : List (Text × Text)) (e : Evidence)
      → All PlainLine ls
      → read_lines print_time parse_time (split 10 (print_lines ls)) e ≡ assign_all ls e
  unfolding read_lines read_line print_lines assign_all split trim_space
  read_lines-assign_all [] e h = refl
  read_lines-assign_all ((key, value) ∷ rest) e h =
      let p = h.0 in
      let line = key ++ b':' ∷ b' ' ∷ value in
      let whole =
        append-Plain key (b':' ∷ b' ' ∷ []) value p.key p.named refl p.value p.some_value in
      let pieces =
        ap (split 10) (regroup key value (print_lines rest))
        ∙ split-append 10 line (print_lines rest) whole.one_line in
      let tail =
        λ (e' : Evidence). read_lines print_time parse_time (split 10 (print_lines rest)) e' in
      ap (λ ls. read_lines print_time parse_time ls e) pieces
      ∙ ap (λ m. m >>= tail) (read_line-assign (key, value) e p)
      ∙ bind_ext (assign print_time parse_time key value e) tail (assign_all rest)
          (λ e'. read_lines-assign_all rest e' h.1)

  -- An optional line leaves the field as it was where it is not there.
  pub assign_all-optional :
      (key value : Text) (rest : List (Text × Text)) (e e' : Evidence)
      → (value ≡ [] → e ≡ e')
      → assign print_time parse_time key value e ≡ ok e'
      → assign_all (optional key value rest) e ≡ assign_all rest e'
  unfolding assign_all
  assign_all-optional key value rest e e' same done = elim (Bool-cases (is_empty value)) [
    | inl nothing ↦ rw nothing (ap (assign_all rest) (same (is_empty-eq value nothing)))
    | inr filled ↦ rw filled (ap (λ m. m >>= assign_all rest) done)
  ]

  pub assign_all-check_lines :
      (cs : List Check) (rest : List (Text × Text)) (e : Evidence)
      → All PlainCheck cs
      → check_problem cs ≡ none
      → assign_all (check_lines cs rest) e ≡ assign_all rest (record e { checks = e.checks ++ cs })
  unfolding assign_all assign check_problem text_eq
  assign_all-check_lines [] rest e h v =
      ap (λ cs. assign_all rest (record e { checks = cs })) (sym (append-nil e.checks))
  assign_all-check_lines (c ∷ cs) rest e h v =
      let whole = trim_space-Plain c.name h.0.name in
      let named : is_empty c.name ≡ false = ground (arith, v, whole) in
      let valid : state_valid c.state ≡ true = ground (arith, v) in
      let more : check_problem cs ≡ none = ground (arith, v) in
      let put = λ (c' : Check). ok (record e { checks = e.checks ++ c' ∷ [] }) in
      ap (λ m. m >>= put >>= assign_all (check_lines cs rest))
        (parse_check-check_line c h.0 named valid)
      ∙ assign_all-check_lines cs rest (record e { checks = e.checks ++ c ∷ [] }) h.1 more
      ∙ ap (λ cs. assign_all rest (record e { checks = cs })) (append_assoc e.checks (c ∷ []) cs)
