-- ===== src/Prelude/SwapRemove.antt =====
-- Go's removal of an element that keeps no order: `s[i] = s[len(s)-1]; s = s[:len(s)-1]`.
use Prim.Native.Nat.{ℕ, zero, suc, ◌+◌}
use mathlib.Core.Bool.{Bool, true}
use mathlib.Core.Logic.{inl, inr}
use sshserv.Prelude.Tests.{if◌then◌else◌, Bool-cases, Option-cases}
use mathlib.Core.Path.{◌≡◌, refl, sym}
use mathlib.Core.List.{List, [], ◌∷◌, ◌++◌, Perm}
use mathlib.Core.List.Perm
use mathlib.Core.Option.{Option, none, some, some-injective, none-ne-some}
use native.Mathlib.Omega.{arith}
use sshserv.Prelude.Lists.{get_elem?}

module _ {ℓ} {A : Type ℓ} where
  abbrev pub set : List A → ℕ → A → List A
  set [] i v = []
  set (x ∷ xs) zero v = v ∷ xs
  set (x ∷ xs) (suc i) v = x ∷ set xs i v

  -- The last element of `x ∷ xs`.
  abbrev last_of : A → List A → A
  last_of x [] = x
  last_of x (y ∷ ys) = last_of y ys

  abbrev drop_last : List A → List A
  drop_last [] = []
  drop_last (x ∷ []) = []
  drop_last (x ∷ y ∷ ys) = x ∷ drop_last (y ∷ ys)

  unfoldable pub swap_remove : List A → ℕ → List A
  swap_remove [] i = []
  swap_remove (x ∷ xs) i = drop_last (set (x ∷ xs) i (last_of x xs))

  last-perm : (x : A) (xs : List A) → Perm (last_of x xs ∷ drop_last (x ∷ xs)) (x ∷ xs)
  last-perm x [] = Perm.refl (x ∷ [])
  last-perm x (y ∷ ys) =
      Perm.trans (Perm.swap x (last_of y ys) (drop_last (y ∷ ys))) (Perm.cons x (last-perm y ys))

  swap_remove-suc :
      (x y : A) (ys : List A) (j : ℕ)
      → swap_remove (x ∷ y ∷ ys) (suc j) ≡ x ∷ swap_remove (y ∷ ys) j
  unfolding swap_remove
  swap_remove-suc x y ys zero = refl
  swap_remove-suc x y ys (suc j) = refl

  -- What is removed and what is left are what was there.
  pub swap_remove-perm :
      (xs : List A) (i : ℕ) (a : A) → get_elem? xs i ≡ some a → Perm (a ∷ swap_remove xs i) xs
  unfolding swap_remove
  swap_remove-perm [] i a h = cc
  swap_remove-perm (x ∷ []) zero a h = Perm.cons' (sym (some-injective x a h)) (Perm.refl [])
  swap_remove-perm (x ∷ y ∷ ys) zero a h = Perm.cons' (sym (some-injective x a h)) (last-perm y ys)
  swap_remove-perm (x ∷ []) (suc j) a h = cc
  swap_remove-perm (x ∷ y ∷ ys) (suc j) a h = rw (swap_remove-suc x y ys j) (
      Perm.trans (Perm.swap x a (swap_remove (y ∷ ys) j))
        (Perm.cons x (swap_remove-perm (y ∷ ys) j a h)))

-- The search that stops at the first element that passes, and removes it.
module _ {ℓ} {A : Type ℓ} (test : A → Bool) where
  abbrev next : Option ℕ → Option ℕ
  next none = none
  next (some i) = some (suc i)

  unfoldable pub find_index : List A → Option ℕ
  find_index [] = none
  find_index (x ∷ xs) = let rest = find_index xs in if test x then some zero else next rest

  -- How many elements pass.
  abbrev pub count : List A → ℕ
  count [] = 0
  count (x ∷ xs) = (if test x then 1 else 0) + count xs

  pub count-append : (xs ys : List A) → count (xs ++ ys) ≡ count xs + count ys
  count-append [] ys = omega arith
  count-append (x ∷ xs) ys = omega (arith, count-append xs ys)

  count_last : (x : A) (xs : List A) → count (last_of x xs ∷ drop_last (x ∷ xs)) ≡ count (x ∷ xs)
  count_last x [] = refl
  count_last x (y ∷ ys) = omega (arith, count_last y ys)

  pub count-swap_remove :
      (xs : List A) (i : ℕ) (a : A)
      → get_elem? xs i ≡ some a
      → count (a ∷ swap_remove xs i) ≡ count xs
  unfolding swap_remove
  count-swap_remove [] i a h = cc
  count-swap_remove (x ∷ []) zero a h = rw (some-injective x a h) refl
  count-swap_remove (x ∷ y ∷ ys) zero a h =
      rw (some-injective x a h) (omega (arith, count_last y ys))
  count-swap_remove (x ∷ []) (suc j) a h = cc
  count-swap_remove (x ∷ y ∷ ys) (suc j) a h =
      rw (swap_remove-suc x y ys j) (omega (arith, count-swap_remove (y ∷ ys) j a h))

  -- What the search finds is there and passes.
  pub find_index-eq-some :
      (xs : List A) (i : ℕ)
      → find_index xs ≡ some i
      → (a : A) × (get_elem? xs i ≡ some a) × (test a ≡ true)
  unfolding find_index
  find_index-eq-some [] i h = cc
  find_index-eq-some (x ∷ xs) i h = elim (Bool-cases (test x)) [
    | inl t ↦ let e : some 0 ≡ some i = rw (t) at h in rw (sym (some-injective 0 i e)) (x, refl, t)
    | inr f ↦ elim (Option-cases (find_index xs)) [
      | inl n ↦ absurd (none-ne-some i (rw (f, n) at h))
      | inr (j, e) ↦
          let k : some (suc j) ≡ some i = rw (f, e) at h in
          rw (sym (some-injective (suc j) i k)) (find_index-eq-some xs j e)
    ]
  ]

  pub find_index-eq-none : (xs : List A) → find_index xs ≡ none → count xs ≡ 0
  unfolding find_index
  find_index-eq-none [] h = refl
  find_index-eq-none (x ∷ xs) h = elim (Bool-cases (test x)) [
    | inl t ↦ cc
    | inr f ↦ elim (Option-cases (find_index xs)) [
      | inl n ↦ rw (f) (omega (arith, find_index-eq-none xs n))
      | inr (j, e) ↦ cc
    ]
  ]
