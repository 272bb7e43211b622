-- ===== src/Json.antt =====
-- The values that `JSON.parse` returns and `JSON.stringify` takes, and the tests that the code makes
-- on a value of type `unknown`. The two functions themselves are the runtime's: where the code calls
-- them they are arguments.
use async_webhook_ingestion.Prelude.{
  ℕ, zero, suc, String, Bool, true, false, not, Option, none, some, ◌==◌, if◌then◌else◌,
}

-- A number's value: a natural number, as the code's counters write, or any other, by its text.
-- Every other value is truthy, since 0 and -0 are `nat 0`.
pub data Number : Type 0 where
  nat : ℕ → Number
  other : String → Number

mutual
  pub data Json : Type 0 where
    null : Json
    bool : Bool → Json
    num : Number → Json
    str : String → Json
    arr : Elems → Json
    obj : Fields → Json

  pub data Elems : Type 0 where
    nil : Elems
    cons : Json → Elems → Elems

  pub data Fields : Type 0 where
    end : Fields
    field : String → Json → Fields → Fields

abbrev pub lookup_field : String → Fields → Option Json
lookup_field k end = none
lookup_field k (field j v fs) = if j == k then some v else lookup_field k fs

-- `v.k` for the names that the code reads, none of which is a property of a text, a number, a
-- Boolean or an array; `none` is `undefined`. On `null` JavaScript throws: see the callers.
abbrev pub property : String → Json → Option Json
property k null = none
property k (bool b) = none
property k (num n) = none
property k (str s) = none
property k (arr vs) = none
property k (obj fs) = lookup_field k fs

-- `typeof v === 'string' ? v : undefined`
abbrev pub as_string : Option Json → Option String
as_string (some (str s)) = some s
as_string (some null) = none
as_string (some (bool b)) = none
as_string (some (num n)) = none
as_string (some (arr vs)) = none
as_string (some (obj fs)) = none
as_string none = none

-- `typeof v === 'string' && v ? v : undefined`
abbrev pub as_nonempty : Option Json → Option String
as_nonempty v = elim (as_string v) [ none ↦ none | some s ↦ if s == "" then none else some s ]

-- `typeof v === 'number' ? v : undefined`
abbrev pub as_number : Option Json → Option Number
as_number (some (num n)) = some n
as_number (some null) = none
as_number (some (bool b)) = none
as_number (some (str s)) = none
as_number (some (arr vs)) = none
as_number (some (obj fs)) = none
as_number none = none

-- `Boolean(v)`
abbrev pub truthy : Json → Bool
truthy null = false
truthy (bool b) = b
truthy (num (nat zero)) = false
truthy (num (nat (suc n))) = true
truthy (num (other t)) = true
truthy (str s) = not (s == "")
truthy (arr vs) = true
truthy (obj fs) = true

-- `typeof v === 'object'`, which holds of `null` and of arrays.
abbrev pub is_object_type : Json → Bool
is_object_type null = true
is_object_type (bool b) = false
is_object_type (num n) = false
is_object_type (str s) = false
is_object_type (arr vs) = true
is_object_type (obj fs) = true

-- `Array.isArray(v)`
abbrev pub is_array : Json → Bool
is_array null = false
is_array (bool b) = false
is_array (num n) = false
is_array (str s) = false
is_array (arr vs) = true
is_array (obj fs) = false
