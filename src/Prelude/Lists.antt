-- ===== src/Prelude/Lists.antt =====
-- Lists as sequences and as database tables: a lookup is the first row that passes a test, a write
-- changes the rows that pass one.
use Prim.Native.Nat.{ℕ, suc, ◌+◌}
use mathlib.Core.Path.{◌≡◌, refl}
use mathlib.Core.Logic.{inl, inr}
use mathlib.Core.Bool.{Bool, true, ◌&&◌}
use mathlib.Core.List.{List, [], ◌∷◌, ◌++◌}
use mathlib.Core.Option.{Option, none, some}
use native.Mathlib.Omega.{arith}
use promiseguard_ai.Prelude.Tests.{if◌then◌else◌, is_some, Bool-cases}

module _ {ℓ} {A : Type ℓ} where
  abbrev pub length : List A → ℕ
  length [] = 0
  length (x ∷ xs) = suc (length xs)

  abbrev pub find : (A → Bool) → List A → Option A
  find p [] = none
  find p (x ∷ xs) = if p x then some x else find p xs

  -- `[x for x in xs if p(x)]`
  abbrev pub select : (A → Bool) → List A → List A
  select p [] = []
  select p (x ∷ xs) = let rest = select p xs in if p x then x ∷ rest else rest

  abbrev pub any : (A → Bool) → List A → Bool
  any p xs = is_some (find p xs)

  -- `UPDATE … WHERE p`
  abbrev pub update_where : (A → Bool) → (A → A) → List A → List A
  update_where p f [] = []
  update_where p f (x ∷ xs) = (if p x then f x else x) ∷ update_where p f xs

  -- A change of the row that a lookup returned.
  abbrev pub update_first : (A → Bool) → (A → A) → List A → List A
  update_first p f [] = []
  update_first p f (x ∷ xs) = if p x then f x ∷ xs else x ∷ update_first p f xs

  abbrev pub sum_of : (A → ℕ) → List A → ℕ
  sum_of f [] = 0
  sum_of f (x ∷ xs) = f x + sum_of f xs

  abbrev pub All {κ} : (A → Type κ) → List A → Type κ
  All P [] = Unit
  All P (x ∷ xs) = P x × All P xs

module _ {ℓ} {A : Type ℓ} where
  pub find_holds : (p : A → Bool) (xs : List A) {x : A} → find p xs ≡ some x → p x ≡ true
  find_holds p [] h = cc
  find_holds p (y ∷ ys) {x} h = ground (arith, find_holds p ys {x = x})

  pub find-append :
      (p : A → Bool) (xs : List A) (y : A)
      → find p (xs ++ y ∷ [])
        ≡ elim (find p xs) [ some x ↦ some x | none ↦ if p y then some y else none ]
  find-append p [] y = ground arith
  find-append p (x ∷ xs) y = ground (arith, find-append p xs y)

  pub find-All {κ} :
      (P : A → Type κ) (p : A → Bool) (xs : List A) {x : A} → All P xs → find p xs ≡ some x → P x
  find-All P p [] all h = cc
  find-All P p (y ∷ ys) {x} all h = ground (arith, find-All P p ys {x = x} all.1)

  pub All-append {κ} :
      (P : A → Type κ) (xs : List A) (y : A) → All P xs → P y → All P (xs ++ y ∷ [])
  All-append P [] y all h = (h, tt)
  All-append P (x ∷ xs) y all h = (all.0, All-append P xs y all.1 h)

  pub sum_of-append :
      (f : A → ℕ) (xs : List A) (y : A) → sum_of f (xs ++ y ∷ []) ≡ sum_of f xs + f y
  sum_of-append f [] y = omega arith
  sum_of-append f (x ∷ xs) y = omega (arith, sum_of-append f xs y)

  pub sum_of-update_first :
      (g : A → ℕ) (p : A → Bool) (f : A → A) (xs : List A) {x : A}
      → find p xs ≡ some x
      → sum_of g (update_first p f xs) + g x ≡ sum_of g xs + g (f x)
  sum_of-update_first g p f [] h = cc
  sum_of-update_first g p f (y ∷ ys) {x} h = ground (arith, sum_of-update_first g p f ys {x = x})

  pub find-update_first :
      (p : A → Bool) (f : A → A) (xs : List A) {x : A}
      → find p xs ≡ some x
      → p (f x) ≡ true
      → find p (update_first p f xs) ≡ some (f x)
  find-update_first p f [] h k = cc
  find-update_first p f (y ∷ ys) {x} h k = ground (arith, find-update_first p f ys {x = x})

  abbrev pub map_option : (A → A) → Option A → Option A
  map_option f none = none
  map_option f (some x) = some (f x)

  -- An UPDATE that keeps what a lookup tests changes the row that the lookup finds, or none.
  pub find-update_where :
      (p q : A → Bool) (f : A → A) (xs : List A)
      → ((x : A) → p (f x) ≡ p x)
      → find p (update_where q f xs) ≡ map_option (λ x. if q x then f x else x) (find p xs)
  find-update_where p q f [] same = refl
  find-update_where p q f (x ∷ xs) same = ground (arith, same x, find-update_where p q f xs same)

  -- An UPDATE that matches no row changes nothing.
  pub update_where-none :
      (q : A → Bool) (f : A → A) (xs : List A) → find q xs ≡ none → update_where q f xs ≡ xs
  update_where-none q f [] h = refl
  update_where-none q f (x ∷ xs) h = ground (arith, update_where-none q f xs)

  pub find-and :
      (p q : A → Bool) (xs : List A) {x : A}
      → find p xs ≡ some x
      → q x ≡ true
      → find (λ y. p y && q y) xs ≡ some x
  find-and p q [] h k = cc
  find-and p q (y ∷ ys) {x} h k = ground (arith, find-and p q ys {x = x})

  pub All-update_first {κ} :
      (P : A → Type κ) (p : A → Bool) (f : A → A) (xs : List A)
      → All P xs
      → ((x : A) → find p xs ≡ some x → P x → P (f x))
      → All P (update_first p f xs)
  All-update_first P p f [] all step = all
  All-update_first P p f (x ∷ xs) all step = elim (Bool-cases (p x)) [
    | inl hit ↦ rw hit (step x (ground arith) all.0, all.1)
    | inr other ↦
        rw other (all.0, All-update_first P p f xs all.1 (λ y found. step y (ground arith)))
  ]
