-- ===== src/Admission/Format.antt =====
-- What the markers are built from: required and optional fields, sizes of lists, and CEL's
-- functions on lists.
use agentic_platform.Prelude.{
  ℕ, suc, ◌≤◌, ◌≡◌, ◌≢◌, String, Bool, true, false, none, some, List, [], ◌∷◌, All, length, str_eq,
  str_eq_iff, if◌then◌else◌, arith,
}
use agentic_platform.Memory.{Pointer, Slice}

-- `has(self.f)`
abbrev pub has : {A : Type 0} → Pointer A → Bool
has none = false
has (some r) = true

-- An optional field that is absent passes every test of its value.
abbrev pub optional : {A : Type 0} → (A → Bool) → Pointer A → Bool
optional p none = true
optional p (some r) = p r.content

-- A missing list and an empty one have no items.
abbrev pub items : {A : Type 0} → Slice A → List A
items none = []
items (some r) = r.content

-- CEL: `contains`, `distinct()` and `filter(x, p).size()`.
abbrev pub contains : String → List String → Bool
contains x [] = false
contains x (y ∷ ys) = if str_eq x y then true else contains x ys

abbrev pub distinct : List String → List String
distinct [] = []
distinct (x ∷ xs) = let rest = distinct xs in if contains x xs then rest else x ∷ rest

abbrev pub count : {A : Type 0} → (A → Bool) → List A → ℕ
count p [] = 0
count p (x ∷ xs) = let rest = count p xs in if p x then suc rest else rest

-- No text stands twice in the list.
abbrev pub Distinct : List String → Type 0
Distinct [] = Unit
Distinct (x ∷ xs) = All (λ y. x ≢ y) xs × Distinct xs

pub length-distinct-le : (xs : List String) → length (distinct xs) ≤ length xs
length-distinct-le [] = omega arith
length-distinct-le (x ∷ xs) = ground (arith, length-distinct-le xs)

pub contains-false : (x : String) (ys : List String) → contains x ys ≡ false → All (λ y. x ≢ y) ys
contains-false x [] h = tt
contains-false x (y ∷ ys) h = ground (arith, str_eq_iff x y, contains-false x ys)

-- The CEL rule `l.distinct().size() == l.size()` says that no text stands twice.
pub distinct-Distinct : (xs : List String) → length (distinct xs) ≡ length xs → Distinct xs
distinct-Distinct [] h = tt
distinct-Distinct (x ∷ xs) h =
    ground (arith, length-distinct-le xs, contains-false x xs, distinct-Distinct xs)
