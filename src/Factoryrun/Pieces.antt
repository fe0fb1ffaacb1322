-- ===== src/Factoryrun/Pieces.antt =====
-- A check and a list of issues are read back as they were printed (internal/factoryrun/marker.go).
use machinist.Base.{
  ◌==◌, ◌≡◌, refl, sym, ap, ◌∙◌, subst, Text, codes, text_eq, eq_of_text_eq, true, false, List, [],
  ◌∷◌, ◌++◌, All, arith, any, is_empty, is_space, trim_left, trim_right, split, contains,
  Bool-cases, inl, inr,
}
use machinist.Base.Result.{ok}
use machinist.Factoryrun.Evidence.{Check, state_valid, check_states}
use machinist.Factoryrun.Marker.{check_line, join_issues, split_csv, keep_pieces, parse_check}
use machinist.Factoryrun.Lines.{
  Plain, trim_space-Plain, append-Plain, is_empty-append, split-append, split-none, cut-append,
  cut-none,
}

-- What may stand in a check: a name and an address of one line each, and no colon in the name.
pub record PlainCheck (c : Check) : Type 0 where
  pub name : Plain c.name
  pub no_colon : any (λ b. b == b':') c.name ≡ false
  pub url : Plain c.details_url

-- What may stand in an issue.
pub record PlainIssue (i : Text) : Type 0 where
  pub plain : Plain i
  pub some_text : is_empty i ≡ false
  pub no_comma : any (λ b. b == b',') i ≡ false

record PlainState (s : Text) : Type 0 where
  plain : Plain s
  some_text : is_empty s ≡ false
  no_colon : any (λ b. b == b':') s ≡ false

literal :
    (s : Text)
    → trim_left s ≡ s
    → trim_right s ≡ s
    → any (λ b. b == 10) s ≡ false
    → is_empty s ≡ false
    → any (λ b. b == b':') s ≡ false
    → PlainState s
literal s l r o e c = record {
  plain = record { left = l; right = r; one_line = o };
  some_text = e;
  no_colon = c;
}

states_plain : All PlainState check_states
unfolding trim_left trim_right is_space
states_plain = (
  literal (codes "success") refl refl refl refl refl,
  (
    literal (codes "failure") refl refl refl refl refl,
    (
      literal (codes "pending") refl refl refl refl refl,
      (literal (codes "neutral") refl refl refl refl refl, tt),
    ),
  ),
)

known : (s : Text) (ts : List Text) → All PlainState ts → contains s ts ≡ true → PlainState s
known s [] h e = cc
known s (t ∷ ts) h e = elim (Bool-cases (text_eq s t)) [
  | inl same ↦ subst PlainState (sym (eq_of_text_eq s t same)) h.0
  | inr other ↦ known s ts h.1 (rw other at e)
]

state_valid-PlainState : (s : Text) → state_valid s ≡ true → PlainState s
unfolding state_valid
state_valid-PlainState s h = known s check_states states_plain h

append-nil : (s : Text) → s ++ [] ≡ s
append-nil [] = refl
append-nil (c ∷ s) = ap (◌∷◌ c) (append-nil s)

pub is_empty-eq : (t : Text) → is_empty t ≡ true → t ≡ []
is_empty-eq [] h = refl
is_empty-eq (c ∷ t) h = cc

module _ (c : Check) (h : PlainCheck c) (named : is_empty c.name ≡ false)
    (valid : state_valid c.state ≡ true) where
  pub check_line-Plain : Plain (check_line c) × (is_empty (check_line c) ≡ false)
  unfolding check_line
  check_line-Plain =
      let s = state_valid-PlainState c.state valid in
      elim (Bool-cases (is_empty c.details_url)) [
        | inl no_url ↦
            rw (no_url, append-nil c.state)
              (
                append-Plain c.name (b':' ∷ []) c.state h.name named refl s.plain s.some_text,
                is_empty-append c.name (b':' ∷ c.state) refl,
              )
        | inr url ↦
            let behind = c.state ++ b':' ∷ c.details_url in
            rw url (
              append-Plain c.name (b':' ∷ []) behind h.name named refl
                  (append-Plain c.state (b':' ∷ []) c.details_url s.plain s.some_text refl h.url
                    url)
                  (is_empty-append c.state (b':' ∷ c.details_url) refl),
              is_empty-append c.name (b':' ∷ behind) refl,
            )
      ]

  pub parse_check-check_line : parse_check (check_line c) ≡ ok c
  unfolding parse_check check_line
  parse_check-check_line =
      let s = state_valid-PlainState c.state valid in
      let name = trim_space-Plain c.name h.name in
      let state = trim_space-Plain c.state s.plain in
      let url = trim_space-Plain c.details_url h.url in
      elim (Bool-cases (is_empty c.details_url)) [
        | inl no_url ↦
            let first = cut-append b':' c.name (c.state ++ []) h.no_colon in
            let second = cut-none b':' c.state s.no_colon in
            ground (
              arith,
              first,
              second,
              name,
              state,
              named,
              valid,
              no_url,
              append-nil c.state,
              is_empty-eq c.details_url no_url,
            )
        | inr has_url ↦
            let first = cut-append b':' c.name (c.state ++ b':' ∷ c.details_url) h.no_colon in
            let second = cut-append b':' c.state c.details_url s.no_colon in
            ground (arith, first, second, name, state, url, named, valid, has_url)
      ]

-- The issues, joined, are one line, and come apart as they were.
pub join_issues-Plain :
    (i : Text) (is : List Text)
    → PlainIssue i
    → All PlainIssue is
    → Plain (join_issues (i ∷ is)) × (is_empty (join_issues (i ∷ is)) ≡ false)
unfolding join_issues
join_issues-Plain i [] h hs = (h.plain, h.some_text)
join_issues-Plain i (j ∷ is) h hs =
    let (plain, some_text) = join_issues-Plain j is hs.0 hs.1 in
    (
      append-Plain i (b',' ∷ []) (join_issues (j ∷ is)) h.plain h.some_text refl plain some_text,
      is_empty-append i (b',' ∷ join_issues (j ∷ is)) refl,
    )

split-join_issues :
    (i : Text) (is : List Text)
    → PlainIssue i
    → All PlainIssue is
    → split b',' (join_issues (i ∷ is)) ≡ i ∷ is
unfolding join_issues
split-join_issues i [] h hs = split-none b',' i h.no_comma
split-join_issues i (j ∷ is) h hs =
    split-append b',' i (join_issues (j ∷ is)) h.no_comma
    ∙ ap (◌∷◌ i) (split-join_issues j is hs.0 hs.1)

keep_pieces-All : (is : List Text) → All PlainIssue is → keep_pieces is ≡ is
unfolding keep_pieces
keep_pieces-All [] h = refl
keep_pieces-All (i ∷ is) h =
    ground (arith, keep_pieces-All is h.1, trim_space-Plain i h.0.plain, h.0.some_text)

pub split_csv-join_issues :
    (i : Text) (is : List Text)
    → PlainIssue i
    → All PlainIssue is
    → split_csv (join_issues (i ∷ is)) ≡ i ∷ is
unfolding split_csv
split_csv-join_issues i is h hs =
    let (plain, some_text) = join_issues-Plain i is h hs in
    rw some_text (ap keep_pieces (split-join_issues i is h hs) ∙ keep_pieces-All (i ∷ is) (h, hs))
