-- ===== src/Gatekeeper/Ordering.antt =====
-- The order of the report on what is owed (internal/gatekeeper/mergeowed.go).
use machinist.Base.{
  ◌<◌, ◌==◌, ◌⊎◌, ℕ, ◌≡◌, ◌≢◌, refl, sym, ◌∙◌, Bool, true, false, not, List, [], ◌∷◌, All, arith,
  Bool-cases, inl, inr, text_eq, text_eq_iff, text_lt, text_lt-Order, text_lt_antisym, text_eq_sym,
  All-map, sort_stable-perm, sort_stable-IsSorted, IsSorted, Order, if◌then◌else◌,
}
use mathlib.Core.List.{Perm}
use machinist.Base.Int.{ℤ, int_lt}
use machinist.Gatekeeper.Owed.{before, owed_each, owed_across}
use machinist.Gatekeeper.Change.{
  merge_owed, waiting, attention_owed, Disposition, Change, Judgement, Standing,
}

int_lt-Order : Order int_lt
int_lt-Order = record { asym = asym; trans = trans }
  where
    asym : (i j : ℤ) → int_lt i j ≡ true → int_lt j i ≡ false
    asym i j h = ground arith

    trans : (i j k : ℤ) → int_lt j i ≡ false → int_lt k j ≡ false → int_lt k i ≡ false
    trans i j k h h' = ground arith

-- The order of two standings of one rank and one duration.
abbrev by_place : Standing → Standing → Bool
by_place l r =
    if not (text_eq l.change.repository r.change.repository)
    then text_lt l.change.repository r.change.repository
    else int_lt l.change.number r.change.number

by_place_asym : (l r : Standing) → by_place l r ≡ true → by_place r l ≡ false
by_place_asym l r h = ground (
  arith,
  text_eq_sym l.change.repository r.change.repository,
  text_lt-Order.asym l.change.repository r.change.repository,
  int_lt-Order.asym l.change.number r.change.number,
)

by_place_trans :
    (x y z : Standing) → by_place y x ≡ false → by_place z y ≡ false → by_place z x ≡ false
by_place_trans x y z h k =
    let a = x.change.repository in
    let b = y.change.repository in
    let c = z.change.repository in
    ground (
      arith,
      text_eq_iff b a,
      text_eq_iff c b,
      text_eq_iff c a,
      text_lt-Order.trans a b c,
      text_lt-Order.trans b a b,
      text_lt_antisym a b,
      text_lt_antisym b c,
      text_lt_antisym a c,
      text_lt-Order.trans b c a,
      text_lt-Order.trans c a b,
      int_lt-Order.trans x.change.number y.change.number z.change.number,
    )

before-Order : Order before
unfolding before
before-Order = record { asym = asym; trans = trans }
  where
    asym : (l r : Standing) → before l r ≡ true → before r l ≡ false
    asym l r h = ground (arith, by_place_asym l r)

    trans : (x y z : Standing) → before y x ≡ false → before z y ≡ false → before z x ≡ false
    trans x y z h k = ground (arith, by_place_trans x y z)

-- A standing of the report and one that may stand anywhere behind it: merges that are owed come
-- first, then what a human must attend to, then what waits; within these the longest owed comes
-- first, and the rest goes by repository and number.
pub data Ahead (l r : Standing) : Type 0 where
  merge_first : l.disposition ≡ merge_owed → r.disposition ≢ merge_owed → Ahead l r
  attention_first : l.disposition ≡ attention_owed → r.disposition ≡ waiting → Ahead l r
  longer : l.disposition ≡ r.disposition → r.owed < l.owed → Ahead l r
  by_repository :
      l.disposition ≡ r.disposition
      → l.owed ≡ r.owed
      → text_lt l.change.repository r.change.repository ≡ true
      → Ahead l r
  by_number :
      l.disposition ≡ r.disposition
      → l.owed ≡ r.owed
      → l.change.repository ≡ r.change.repository
      → int_lt r.change.number l.change.number ≡ false
      → Ahead l r

-- Each item stands ahead of all that follow it.
abbrev pub Ordered : List Standing → Type 0
Ordered [] = Unit
Ordered (s ∷ ss) = All (Ahead s) ss × Ordered ss

ranked :
    (l r : Standing) (d d' : Disposition)
    → l.disposition ≡ d
    → r.disposition ≡ d'
    → before r l ≡ false
    → (l.disposition ≡ r.disposition) ⊎ Ahead l r
unfolding before
ranked l r merge_owed merge_owed e f h = inl (e ∙ sym f)
ranked l r merge_owed attention_owed e f h = inr (merge_first e (λ q. ground (arith, f, q)))
ranked l r merge_owed waiting e f h = inr (merge_first e (λ q. ground (arith, f, q)))
ranked l r attention_owed merge_owed e f h = absurd (ground (arith, e, f, h))
ranked l r attention_owed attention_owed e f h = inl (e ∙ sym f)
ranked l r attention_owed waiting e f h = inr (attention_first e f)
ranked l r waiting merge_owed e f h = absurd (ground (arith, e, f, h))
ranked l r waiting attention_owed e f h = absurd (ground (arith, e, f, h))
ranked l r waiting waiting e f h = inl (e ∙ sym f)

tied : (l r : Standing) → before r l ≡ false → l.disposition ≡ r.disposition → Ahead l r
unfolding before
tied l r h same = elim (Bool-cases (l.owed == r.owed)) [
  | inr other ↦ longer same (ground (arith, h, same, other))
  | inl equal ↦
      let owed_same : l.owed ≡ r.owed = ground (arith, equal) in
      elim (Bool-cases (text_eq l.change.repository r.change.repository)) [
        | inr apart ↦ by_repository same owed_same (
            ground (
              arith,
              h,
              same,
              equal,
              apart,
              text_eq_sym l.change.repository r.change.repository,
              text_eq_iff l.change.repository r.change.repository,
              text_lt_antisym l.change.repository r.change.repository,
            ))
        | inl named ↦
            by_number same owed_same ((text_eq_iff l.change.repository r.change.repository).0 named)
              (ground
                (arith, h, same, equal, named, text_eq_sym l.change.repository r.change.repository))
      ]
]

before-Ahead : (l r : Standing) → before r l ≡ false → Ahead l r
before-Ahead l r h = elim (ranked l r l.disposition r.disposition refl refl h) [
  | inl same ↦ tied l r h same
  | inr ahead ↦ ahead
]

IsSorted-Ordered : (ss : List Standing) → IsSorted before ss → Ordered ss
IsSorted-Ordered [] h = tt
IsSorted-Ordered (s ∷ ss) h =
    (All-map (λ t later. before-Ahead s t later) ss h.0, IsSorted-Ordered ss h.1)

-- The report holds each change's standing once, and every standing is ahead of all behind it: owed
-- merges, then what a human must attend to, then what waits; the longest owed first, then by
-- repository and number.
pub owed_across-Ordered :
    (cs : List Change) (js : List (ℤ × Judgement)) (now : ℕ)
    → Perm (owed_across cs js now) (owed_each cs js now) × Ordered (owed_across cs js now)
unfolding owed_across
owed_across-Ordered cs js now =
    (sort_stable-perm before _, IsSorted-Ordered _ (sort_stable-IsSorted before before-Order _))
