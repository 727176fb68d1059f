-- ===== src/Prelude/Sort.antt =====
-- Python's `sorted(l, key=k, reverse=True)`: a stable sort that compares keys by `<` alone. With
-- `reverse=True` items of equal keys keep their order too.
use mathlib.Core.List.{Perm}
use mathlib.Core.List.Perm
use context_agent.Prelude.{
  suc, ◌≡◌, refl, ap, ◌∙◌, Bool, true, false, List, [], ◌∷◌, arith, if◌then◌else◌, Bool-cases, inl,
  inr, length, keep, ◌++◌, take, ℕ, zero, All, Pairwise, any, ◌||◌,
}

module _ {A : Type 0} (lt : A → A → Bool) where
  -- `x` goes in front of the first item that is not greater.
  unfoldable pub insert : A → List A → List A
  insert x [] = x ∷ []
  insert x (y ∷ ys) = if lt x y then y ∷ insert x ys else x ∷ y ∷ ys

  unfoldable pub sort_desc : List A → List A
  unfolding insert
  sort_desc [] = []
  sort_desc (x ∷ xs) = insert x (sort_desc xs)

  -- No later item is greater than an earlier one.
  abbrev pub NoneAbove : A → List A → Type 0
  NoneAbove x [] = Unit
  NoneAbove x (y ∷ ys) = (lt x y ≡ false) × NoneAbove x ys

  abbrev pub Descending : List A → Type 0
  Descending [] = Unit
  Descending (x ∷ xs) = NoneAbove x xs × Descending xs

  insert-perm : (x : A) (xs : List A) → Perm (insert x xs) (x ∷ xs)
  unfolding insert
  insert-perm x [] = Perm.refl _
  insert-perm x (y ∷ ys) = elim (Bool-cases (lt x y)) [
    | inl q ↦ rw q (Perm.trans (Perm.cons y (insert-perm x ys)) (Perm.swap x y ys))
    | inr q ↦ rw q (Perm.refl _)
  ]

  All-insert : (P : A → Type 0) (x : A) (xs : List A) → P x → All P xs → All P (insert x xs)
  unfolding insert
  All-insert P x [] h k = (h, tt)
  All-insert P x (y ∷ ys) h k = elim (Bool-cases (lt x y)) [
    | inl q ↦ rw q (k.0, All-insert P x ys h k.1)
    | inr q ↦ rw q (h, k)
  ]

  pub All-sort_desc : (P : A → Type 0) (xs : List A) → All P xs → All P (sort_desc xs)
  unfolding sort_desc
  All-sort_desc P [] h = tt
  All-sort_desc P (x ∷ xs) h = All-insert P x (sort_desc xs) h.0 (All-sort_desc P xs h.1)

  pub Descending-take : (n : ℕ) (xs : List A) → Descending xs → Descending (take n xs)
  Descending-take zero xs d = tt
  Descending-take (suc n) [] d = tt
  Descending-take (suc n) (x ∷ xs) d = (NoneAbove-take n xs d.0, Descending-take n xs d.1)
    where
      NoneAbove-take : (n : ℕ) (ys : List A) → NoneAbove x ys → NoneAbove x (take n ys)
      NoneAbove-take zero ys h = tt
      NoneAbove-take (suc n) [] h = tt
      NoneAbove-take (suc n) (y ∷ ys) h = (h.0, NoneAbove-take n ys h.1)

  -- A relation that does not see the order of its two sides survives sorting.
  module _ (R : A → A → Type 0) (symm : (a b : A) → R a b → R b a) where
    Pairwise-insert :
        (x : A) (xs : List A) → All (R x) xs → Pairwise R xs → Pairwise R (insert x xs)
    unfolding insert
    Pairwise-insert x [] h k = (tt, tt)
    Pairwise-insert x (y ∷ ys) h k = elim (Bool-cases (lt x y)) [
      | inl q ↦ rw q (All-insert (R y) x ys (symm x y h.0) k.0, Pairwise-insert x ys h.1 k.1)
      | inr q ↦ rw q (h, k)
    ]

    pub Pairwise-sort_desc : (xs : List A) → Pairwise R xs → Pairwise R (sort_desc xs)
    unfolding sort_desc
    Pairwise-sort_desc [] h = tt
    Pairwise-sort_desc (x ∷ xs) h =
        Pairwise-insert x (sort_desc xs) (All-sort_desc (R x) xs h.0) (Pairwise-sort_desc xs h.1)

  -- Sorting loses nothing and adds nothing.
  pub sort_desc-perm : (xs : List A) → Perm (sort_desc xs) xs
  unfolding sort_desc
  sort_desc-perm [] = Perm.refl _
  sort_desc-perm (x ∷ xs) =
      Perm.trans (insert-perm x (sort_desc xs)) (Perm.cons x (sort_desc-perm xs))

  length-insert : (x : A) (xs : List A) → length (insert x xs) ≡ suc (length xs)
  unfolding insert
  length-insert x [] = refl
  length-insert x (y ∷ ys) = ground (arith, length-insert x ys)

  pub length-sort_desc : (xs : List A) → length (sort_desc xs) ≡ length xs
  unfolding sort_desc
  length-sort_desc [] = refl
  length-sort_desc (x ∷ xs) = length-insert x (sort_desc xs) ∙ ap suc (length-sort_desc xs)

  module _ (asymm : (a b : A) → lt a b ≡ true → lt b a ≡ false)
      (trans : (a b c : A) → lt a b ≡ false → lt b c ≡ false → lt a c ≡ false) where
    NoneAbove-trans : (x y : A) (ys : List A) → lt x y ≡ false → NoneAbove y ys → NoneAbove x ys
    NoneAbove-trans x y [] h n = tt
    NoneAbove-trans x y (z ∷ zs) h n = (trans x y z h n.0, NoneAbove-trans x y zs h n.1)

    NoneAbove-insert :
        (y x : A) (ys : List A) → lt y x ≡ false → NoneAbove y ys → NoneAbove y (insert x ys)
    unfolding insert
    NoneAbove-insert y x [] h n = (h, tt)
    NoneAbove-insert y x (z ∷ zs) h n = elim (Bool-cases (lt x z)) [
      | inl q ↦ rw q (n.0, NoneAbove-insert y x zs h n.1)
      | inr q ↦ rw q (h, n)
    ]

    insert-Descending : (x : A) (xs : List A) → Descending xs → Descending (insert x xs)
    unfolding insert
    insert-Descending x [] d = (tt, tt)
    insert-Descending x (y ∷ ys) d = elim (Bool-cases (lt x y)) [
      | inl q ↦ rw q (NoneAbove-insert y x ys (asymm x y q) d.0, insert-Descending x ys d.1)
      | inr q ↦ rw q ((q, NoneAbove-trans x y ys q d.0), d)
    ]

    pub sort_desc-Descending : (xs : List A) → Descending (sort_desc xs)
    unfolding sort_desc
    sort_desc-Descending [] = tt
    sort_desc-Descending (x ∷ xs) = insert-Descending x (sort_desc xs) (sort_desc-Descending xs)

  -- What is greater than nothing and stands last, stays last.
  insert-append_last :
      (x k : A) (ys : List A) → lt x k ≡ false → insert x (ys ++ k ∷ []) ≡ insert x ys ++ k ∷ []
  unfolding insert
  insert-append_last x k [] h = rw h refl
  insert-append_last x k (y ∷ ys) h = ground (arith, insert-append_last x k ys h)

  pub sort_desc-append_last :
      (k : A) (xs : List A)
      → All (λ x. lt x k ≡ false) xs
      → sort_desc (xs ++ k ∷ []) ≡ sort_desc xs ++ k ∷ []
  unfolding sort_desc insert
  sort_desc-append_last k [] h = refl
  sort_desc-append_last k (x ∷ xs) h =
      rw (sort_desc-append_last k xs h.1) (insert-append_last x k (sort_desc xs) h.0)

  -- What is greater than everything comes first.
  pub sort_desc-append_first :
      (k : A) (xs : List A)
      → All (λ x. lt x k ≡ true) xs
      → sort_desc (xs ++ k ∷ []) ≡ k ∷ sort_desc xs
  unfolding sort_desc insert
  sort_desc-append_first k [] h = refl
  sort_desc-append_first k (x ∷ xs) h = rw (sort_desc-append_first k xs h.1, h.0) refl

  -- A list that descends already is not moved: ties keep their order.
  pub sort_desc_of_Descending : (xs : List A) → Descending xs → sort_desc xs ≡ xs
  unfolding sort_desc
  sort_desc_of_Descending [] d = refl
  sort_desc_of_Descending (x ∷ xs) d = ap (insert x) (sort_desc_of_Descending xs d.1) ∙ first xs d.0
    where
      first : (ys : List A) → NoneAbove x ys → insert x ys ≡ x ∷ ys
      first [] n = refl
      first (y ∷ ys) n = rw (n.0)

  -- Stability: a test that holds of no two items of different rank picks the same items, in the
  -- same order, before and after sorting.
  module _ (p : A → Bool) (tied : (a b : A) → p a ≡ true → p b ≡ true → lt a b ≡ false) where
    keep-insert : (x : A) (xs : List A) → keep p (insert x xs) ≡ keep p (x ∷ xs)
    unfolding insert
    keep-insert x [] = refl
    keep-insert x (y ∷ ys) = ground (arith, keep-insert x ys, tied x y)

    pub keep-sort_desc : (xs : List A) → keep p (sort_desc xs) ≡ keep p xs
    unfolding sort_desc
    keep-sort_desc [] = refl
    keep-sort_desc (x ∷ xs) = ground (arith, keep-insert x (sort_desc xs), keep-sort_desc xs)

  -- A search does not see the order.
  any-insert : (p : A → Bool) (x : A) (xs : List A) → any p (insert x xs) ≡ (p x || any p xs)
  unfolding insert
  any-insert p x [] = refl
  any-insert p x (y ∷ ys) = ground (arith, any-insert p x ys)

  pub any-sort_desc : (p : A → Bool) (xs : List A) → any p (sort_desc xs) ≡ any p xs
  unfolding sort_desc
  any-sort_desc p [] = refl
  any-sort_desc p (x ∷ xs) = any-insert p x (sort_desc xs) ∙ ap (λ b. p x || b) (any-sort_desc p xs)
