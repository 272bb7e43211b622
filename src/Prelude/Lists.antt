-- ===== src/Prelude/Lists.antt =====
-- Lists measured by native numbers, tests on lists, and maps keyed by texts.
use Prim.Native.Nat.{ℕ, zero, suc, ◌+◌, ◌≤◌}
use Prim.Native.String.{String}
use mathlib.Core.Path.{◌≡◌, refl}
use mathlib.Core.Bool.{Bool, true, false, ◌&&◌, ◌||◌}
use mathlib.Core.Option.{Option, none, some}
use mathlib.Core.List.{List, [], ◌∷◌, ◌++◌}
use native.Mathlib.Omega.{arith}
use text.Mathlib.Text.{◌==◌}
use text.Mathlib.TextEquality.{eq_iff}
use async_webhook_ingestion.Prelude.Tests.{if◌then◌else◌}

module _ {ℓ} {A : Type ℓ} where
  abbrev pub length : List A → ℕ
  length [] = 0
  length (x ∷ xs) = suc (length xs)

  abbrev pub drop : ℕ → List A → List A
  drop zero xs = xs
  drop (suc n) [] = []
  drop (suc n) (x ∷ xs) = drop n xs

  abbrev pub take : ℕ → List A → List A
  take zero xs = []
  take (suc n) [] = []
  take (suc n) (x ∷ xs) = x ∷ take n xs

  abbrev pub get_elem? : List A → ℕ → Option A
  get_elem? [] i = none
  get_elem? (x ∷ xs) zero = some x
  get_elem? (x ∷ xs) (suc i) = get_elem? xs i

  abbrev pub any : (A → Bool) → List A → Bool
  any p [] = false
  any p (x ∷ xs) = p x || any p xs

  abbrev pub all : (A → Bool) → List A → Bool
  all p [] = true
  all p (x ∷ xs) = p x && all p xs

  abbrev pub keep : (A → Bool) → List A → List A
  keep p [] = []
  keep p (x ∷ xs) = if p x then x ∷ keep p xs else keep p xs

  abbrev pub find_first : (A → Bool) → List A → Option A
  find_first p [] = none
  find_first p (x ∷ xs) = if p x then some x else find_first p xs

  pub length-append : (xs ys : List A) → length (xs ++ ys) ≡ length xs + length ys
  length-append [] ys = omega arith
  length-append (x ∷ xs) ys = omega (arith, length-append xs ys)

  pub length-take_le : (n : ℕ) (xs : List A) → length (take n xs) ≤ n
  length-take_le zero xs = omega arith
  length-take_le (suc n) [] = omega arith
  length-take_le (suc n) (x ∷ xs) = omega (arith, length-take_le n xs)

abbrev pub member : String → List String → Bool
member k [] = false
member k (j ∷ js) = j == k || member k js

-- A JavaScript object, or a `Map`, as its entries.
module _ {ℓ} {V : Type ℓ} where
  abbrev pub lookup : String → List (String × V) → Option V
  lookup key [] = none
  lookup key ((other, value) ∷ entries) = if other == key then some value else lookup key entries

  -- `{ ...entries, [key]: value }`
  abbrev pub insert : String → V → List (String × V) → List (String × V)
  insert key value [] = (key, value) ∷ []
  insert key value ((other, old) ∷ entries) =
      if other == key then (key, value) ∷ entries else (other, old) ∷ insert key value entries

  abbrev pub erase : String → List (String × V) → List (String × V)
  erase key [] = []
  erase key ((other, old) ∷ entries) =
      if other == key then erase key entries else (other, old) ∷ erase key entries

  pub lookup-insert :
      (set read : String) (value : V) (entries : List (String × V))
      → lookup read (insert set value entries)
        ≡ (if set == read then some value else lookup read entries)
  lookup-insert set read value [] = refl
  lookup-insert set read value ((other, old) ∷ entries) = ground (
    lookup-insert set read value entries,
    eq_iff other set,
    eq_iff other read,
    eq_iff set read,
    arith,
  )

  pub lookup-erase :
      (gone read : String) (entries : List (String × V))
      → lookup read (erase gone entries) ≡ (if gone == read then none else lookup read entries)
  lookup-erase gone read [] = ground arith
  lookup-erase gone read ((other, old) ∷ entries) = ground (
    lookup-erase gone read entries,
    eq_iff other gone,
    eq_iff other read,
    eq_iff gone read,
    arith,
  )
