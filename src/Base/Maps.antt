-- ===== src/Base/Maps.antt =====
-- Dictionaries and sets keyed by native numbers, as association lists and lists.
use Prim.Native.Nat.{ℕ}
use mathlib.Core.Path.{◌≡◌, subst}
use mathlib.Core.Bool.{Bool, false}
use mathlib.Core.List.{List, [], ◌∷◌}
use mathlib.Core.Option.{Option, none, some}
use mathlib.Core.Logic.{inl, inr}
use native.Mathlib.Omega.{arith}
use industrial_reliability_p.Base.Tests.{◌==◌, if◌then◌else◌, Bool-cases}
use industrial_reliability_p.Base.Lists.{All, any}

abbrev pub Dict {ℓ} : Type ℓ → Type ℓ
Dict V = List (ℕ × V)

-- `key in the_set`
abbrev pub has : ℕ → List ℕ → Bool
has key keys = any (λ k. k == key) keys

module _ {ℓ} {V : Type ℓ} where
  -- `d.get(key)`
  unfoldable pub get : ℕ → Dict V → Option V
  get key [] = none
  get key ((k, v) ∷ rest) = let found = get key rest in if k == key then some v else found

  -- `d[key] = value`
  unfoldable pub put : ℕ → V → Dict V → Dict V
  put key value [] = (key, value) ∷ []
  put key value ((k, v) ∷ rest) =
      let after = put key value rest in if k == key then (key, value) ∷ rest else (k, v) ∷ after

  pub get-put : (key : ℕ) (value : V) (d : Dict V) → get key (put key value d) ≡ some value
  unfolding get put
  get-put key value [] = ground arith
  get-put key value ((k, v) ∷ rest) = ground (arith, get-put key value rest)

  pub get-put-other :
      (key other : ℕ) (value : V) (d : Dict V)
      → (key == other) ≡ false
      → get other (put key value d) ≡ get other d
  unfolding get put
  get-put-other key other value [] h = ground arith
  get-put-other key other value ((k, v) ∷ rest) h =
      ground (arith, get-put-other key other value rest h)

  -- what holds of every value still does after a put of another one that has it
  pub put-All {κ} :
      (Q : ℕ × V → Type κ) (key : ℕ) (value : V) (d : Dict V)
      → Q (key, value)
      → All Q d
      → All Q (put key value d)
  unfolding put
  put-All Q key value [] q h = (q, tt)
  put-All Q key value ((k, v) ∷ rest) q (h, hs) = elim (Bool-cases (k == key)) [
    | inl same ↦ rw (put, same) (q, hs)
    | inr other ↦ rw (put, other) (h, put-All Q key value rest q hs)
  ]

  pub get-All {κ} :
      (Q : ℕ × V → Type κ) (key : ℕ) (value : V) (d : Dict V)
      → All Q d
      → get key d ≡ some value
      → Q (key, value)
  unfolding get
  get-All Q key value [] h found = absurd (cc)
  get-All Q key value ((k, v) ∷ rest) (h, hs) found = elim (Bool-cases (k == key)) [
    | inl same ↦
        let same_key : k ≡ key = ground arith in
        let same_value : v ≡ value = ground arith in
        subst (λ n. Q (n, value)) same_key (subst (λ u. Q (k, u)) same_value h)
    | inr other ↦ get-All Q key value rest hs (ground arith)
  ]
