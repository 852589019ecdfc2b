-- ===== src/Lab/Validation/Distinct.antt =====
-- A loop that remembers what it has seen finds no repetition exactly if the items are distinct.
use industrial_reliability_p.Base.{
  ◌≡◌, refl, Bool, true, false, ◌&&◌, ◌||◌, not, List, [], ◌∷◌, ◌++◌, any, all, arith,
}
use industrial_reliability_p.Lab.Validation.{is_empty}

module _ {A : Type 0} where
  -- no two of the items are the same
  unfoldable pub distinct_by : (A → A → Bool) → List A → Bool
  distinct_by same [] = true
  distinct_by same (x ∷ xs) = not (any (same x) xs) && distinct_by same xs

  -- the loop, with the items seen
  unfoldable pub fresh_by : (A → A → Bool) → List A → List A → Bool
  fresh_by same seen [] = true
  fresh_by same seen (x ∷ xs) = not (any (λ s. same s x) seen) && fresh_by same (x ∷ seen) xs

  neither_splits :
      (p q : A → Bool) (xs : List A)
      → all (λ x. not (p x || q x)) xs ≡ (not (any p xs) && all (λ x. not (q x)) xs)
  neither_splits p q [] = refl
  neither_splits p q (x ∷ xs) = ground (arith, neither_splits p q xs)

  fresh_by-distinct_by :
      (same : A → A → Bool) (seen xs : List A)
      → fresh_by same seen xs
        ≡ (distinct_by same xs && all (λ x. not (any (λ s. same s x) seen)) xs)
  unfolding fresh_by distinct_by
  fresh_by-distinct_by same seen [] = refl
  fresh_by-distinct_by same seen (x ∷ xs) = ground (
    arith,
    fresh_by-distinct_by same (x ∷ seen) xs,
    neither_splits (same x) (λ y. any (λ s. same s y) seen) xs,
  )

  every_passes : (xs : List A) → all (λ x. true) xs ≡ true
  every_passes [] = refl
  every_passes (x ∷ xs) = every_passes xs

  pub fresh_distinct :
      (same : A → A → Bool) (xs : List A) → fresh_by same [] xs ≡ distinct_by same xs
  fresh_distinct same xs = ground (arith, fresh_by-distinct_by same [] xs, every_passes xs)

  pub all_cong : (p q : A → Bool) (xs : List A) → ((x : A) → p x ≡ q x) → all p xs ≡ all q xs
  all_cong p q [] h = refl
  all_cong p q (x ∷ xs) h = ground (arith, all_cong p q xs h, h x)

  pub is_empty-append : (xs ys : List A) → is_empty (xs ++ ys) ≡ (is_empty xs && is_empty ys)
  is_empty-append [] ys = refl
  is_empty-append (x ∷ xs) ys = refl

  pub any-append : (p : A → Bool) (xs ys : List A) → any p (xs ++ ys) ≡ (any p xs || any p ys)
  any-append p [] ys = refl
  any-append p (x ∷ xs) ys = ground (arith, any-append p xs ys)

  pub distinct_by-append :
      (same : A → A → Bool) (xs : List A) (y : A)
      → distinct_by same xs ≡ true
      → any (λ x. same x y) xs ≡ false
      → distinct_by same (xs ++ y ∷ []) ≡ true
  unfolding distinct_by
  distinct_by-append same [] y d h = refl
  distinct_by-append same (x ∷ xs) y d h =
      ground (arith, distinct_by-append same xs y, any-append (same x) xs (y ∷ []))
