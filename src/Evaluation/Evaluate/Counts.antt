-- ===== src/Evaluation/Evaluate/Counts.antt =====
-- Lemmas on the counts of `evaluate` of src/industrial_reliability/evaluation.py.
use industrial_reliability_p.Base.{
  ℕ, ◌≤◌, ◌≡◌, ◌↔◌, refl, sym, ap, ◌∙◌, Bool, true, false, ◌||◌, not, List, [], ◌∷◌, map, any,
  length, is_some, arith,
}
use mathlib.Core.Path.{ap₂}
use industrial_reliability_p.Platform.{Datetime}
use industrial_reliability_p.Evaluation.Episodes.{Episode}
use industrial_reliability_p.Evaluation.Events.{Event, in_horizon, in_source}
use industrial_reliability_p.Evaluation.Evaluate.{count_if, mark, first_detection}

module _ {A : Type 0} where
  pub count_if_le_length : (test : A → Bool) (xs : List A) → count_if test xs ≤ length xs
  unfolding count_if
  count_if_le_length test [] = omega arith
  count_if_le_length test (x ∷ xs) = ground (arith, count_if_le_length test xs)

  pub count_if_mono :
      (p q : A → Bool) (xs : List A)
      → ((x : A) → p x ≡ true → q x ≡ true)
      → count_if p xs ≤ count_if q xs
  unfolding count_if
  count_if_mono p q [] h = omega arith
  count_if_mono p q (x ∷ xs) h = ground (arith, count_if_mono p q xs h, h x)

  pub count_if_cong :
      (p q : A → Bool) (xs : List A) → ((x : A) → p x ≡ q x) → count_if p xs ≡ count_if q xs
  unfolding count_if
  count_if_cong p q [] h = refl
  count_if_cong p q (x ∷ xs) h = ground (arith, count_if_cong p q xs h, h x)

  pub count_if-map :
      {B : Type 0} (f : B → A) (test : A → Bool) (xs : List B)
      → count_if test (map f xs) ≡ count_if (λ x. test (f x)) xs
  unfolding count_if
  count_if-map f test [] = refl
  count_if-map f test (x ∷ xs) = ground (arith, count_if-map f test xs)

  -- nothing passes when none of the items does
  pub count_if-any :
      (test : A → Bool) (xs : List A) → (count_if test xs ≡ 0) ↔ (any test xs ≡ false)
  unfolding count_if
  count_if-any test [] = ground arith
  count_if-any test (x ∷ xs) = ground (arith, count_if-any test xs)

  pub count_if-not :
      (test : A → Bool) (xs : List A)
      → (count_if (λ x. not (test x)) xs ≡ length xs) ↔ (any test xs ≡ false)
  unfolding count_if
  count_if-not test [] = ground arith
  count_if-not test (x ∷ xs) =
      ground (arith, count_if-not test xs, count_if_le_length (λ y. not (test y)) xs)

  pub any_or : (p q : A → Bool) (xs : List A) → any (λ x. p x || q x) xs ≡ (any p xs || any q xs)
  any_or p q [] = refl
  any_or p q (x ∷ xs) = ground (arith, any_or p q xs)

  pub any_none : (xs : List A) → any (λ x. false) xs ≡ false
  any_none [] = refl
  any_none (x ∷ xs) = any_none xs

pub any_swap :
    {A : Type 0} {B : Type 0} (test : A → B → Bool) (xs : List A) (ys : List B)
    → any (λ x. any (test x) ys) xs ≡ any (λ y. any (λ x. test x y) xs) ys
any_swap test [] ys = sym (any_none ys)
any_swap test (x ∷ xs) ys =
    ap (λ b. any (test x) ys || b) (any_swap test xs ys)
    ∙ sym (any_or (test x) (λ y. any (λ z. test z y) xs) ys)

pub first_detection-any :
    (test : Episode → Bool) (episodes : List Episode)
    → is_some (first_detection test episodes) ≡ any test episodes
unfolding first_detection
first_detection-any test [] = refl
first_detection-any test (episode ∷ episodes) = ground (arith, first_detection-any test episodes)

pub length-mark :
    (test : Datetime → Bool) (ends : List Datetime) (marks : List Bool)
    → length marks ≡ length ends
    → length (mark test ends marks) ≡ length ends
unfolding mark
length-mark test [] marks h = refl
length-mark test (end ∷ ends) [] h = absurd (omega arith)
length-mark test (end ∷ ends) (m ∷ marks) h = ground (arith, length-mark test ends marks)

pub in_source-in_horizon :
    (horizon : ℕ) (event : Event) (t : Datetime)
    → in_source event t ≡ true
    → in_horizon horizon event t ≡ true
unfolding in_source in_horizon
in_source-in_horizon horizon event t h = ground arith

map_same : {A B : Type 0} (f g : A → B) (xs : List A) → ((x : A) → f x ≡ g x) → map f xs ≡ map g xs
map_same f g [] h = refl
map_same f g (x ∷ xs) h = ap₂ (λ y ys. y ∷ ys) (h x) (map_same f g xs h)

or_false : (b : Bool) → b ≡ (b || false)
or_false true = refl
or_false false = refl

or_assoc : (a b c : Bool) → ((a || b) || c) ≡ (a || (b || c))
or_assoc true b c = refl
or_assoc false b c = refl

pub map_or_false : {A : Type 0} (f : A → Bool) (xs : List A) → map f xs ≡ map (λ x. f x || false) xs
map_or_false f xs = map_same f (λ x. f x || false) xs (λ x. or_false (f x))

pub map_or_assoc :
    {A : Type 0} (f g h : A → Bool) (xs : List A)
    → map (λ x. (f x || g x) || h x) xs ≡ map (λ x. f x || (g x || h x)) xs
map_or_assoc f g h xs =
    map_same (λ x. (f x || g x) || h x) (λ x. f x || (g x || h x)) xs
      (λ x. or_assoc (f x) (g x) (h x))

pub mark-map :
    (test f : Datetime → Bool) (ends : List Datetime)
    → mark test ends (map f ends) ≡ map (λ t. f t || test t) ends
unfolding mark
mark-map test f [] = refl
mark-map test f (end ∷ ends) = ap (λ marks. (f end || test end) ∷ marks) (mark-map test f ends)
