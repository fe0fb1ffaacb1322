-- ===== src/Jobs/Rows.antt =====
-- What the updates of Jobs/Tables.antt keep of a property of all rows.
use machinist.Base.{
  ◌≡◌, refl, Bool, true, some, List, [], ◌∷◌, ◌++◌, All, filter, arith, Bool-cases, inl, inr,
}
use machinist.Jobs.Tables.{update, update_key, select}

-- What is selected meets the condition.
pub select-holds :
    {A : Type 0} (p : A → Bool) (rows : List A) (a : A) → select p rows ≡ some a → p a ≡ true
unfolding select
select-holds p [] a e = cc
select-holds p (b ∷ rows) a e = elim (Bool-cases (p b)) [
  | inl t ↦ let same : b ≡ a = ground (arith, e, t) in rw (← same) t
  | inr t ↦ select-holds p rows a (rw t at e)
]

module _ {A : Type 0} (P : A → Type 0) where
  pub All-update :
      (p : A → Bool) (f : A → A) (rows : List A)
      → ((a : A) → p a ≡ true → P a → P (f a))
      → All P rows
      → All P (update p f rows)
  unfolding update
  All-update p f [] keep h = tt
  All-update p f (a ∷ rows) keep h = elim (Bool-cases (p a)) [
    | inl e ↦ rw e (keep a e h.0, All-update p f rows keep h.1)
    | inr e ↦ rw e (h.0, All-update p f rows keep h.1)
  ]

  pub All-update_key :
      (p : A → Bool) (f : A → A) (rows : List A)
      → ((a : A) → select p rows ≡ some a → p a ≡ true → P a → P (f a))
      → All P rows
      → All P (update_key p f rows)
  unfolding update_key select
  All-update_key p f [] keep h = tt
  All-update_key p f (a ∷ rows) keep h = elim (Bool-cases (p a)) [
    | inl e ↦ rw e (keep a (rw e refl) e h.0, h.1)
    | inr e ↦ rw e (h.0, All-update_key p f rows (λ b s. keep b (rw e s)) h.1)
  ]

  pub All-select :
      (p : A → Bool) (rows : List A) (a : A)
      → select p rows ≡ some a
      → All P rows
      → P a × (p a ≡ true)
  unfolding select
  All-select p [] a e h = cc
  All-select p (b ∷ rows) a e h = elim (Bool-cases (p b)) [
    | inl t ↦ let same : b ≡ a = ground (arith, e, t) in rw (← same) (h.0, t)
    | inr t ↦ All-select p rows a (rw t at e) h.1
  ]

  pub All-filter : (p : A → Bool) (rows : List A) → All P rows → All P (filter p rows)
  All-filter p [] h = tt
  All-filter p (a ∷ rows) h = elim (Bool-cases (p a)) [
    | inl e ↦ rw e (h.0, All-filter p rows h.1)
    | inr e ↦ rw e (All-filter p rows h.1)
  ]

  pub All-append_one : (rows : List A) (a : A) → All P rows → P a → All P (rows ++ a ∷ [])
  All-append_one [] a h k = (k, tt)
  All-append_one (b ∷ rows) a h k = (h.0, All-append_one rows a h.1 k)
