-- ===== src/ApplyConfiguration/Appends.antt =====
-- The loops of the builders that append their values to a slice, as those of `WithOwnerReferences` and
-- `WithFinalizers` of agentgatewaybackend.go. A slice of a configuration is a list: nil and empty ones
-- are written alike.
use mathlib.Core.List.{append_assoc, append-nil}
use agentic_platform.Prelude.{
  ◌≡◌, ◌≢◌, refl, ap, ◌∙◌, String, Option, none, some, List, [], ◌∷◌, ◌++◌, concat, map, All,
}
use agentic_platform.ApplyConfiguration.{Outcome, returned, panicked}

-- The text of the panic in the builder of that name.
abbrev pub nil_passed_to : String → String
nil_passed_to builder = concat "nil value passed to " builder

-- The values in front of the first nil.
abbrev pub in_front : {A : Type 0} → List (Option A) → List A
in_front [] = []
in_front (none ∷ values) = []
in_front (some v ∷ values) = v ∷ in_front values

-- What the pointers of a list that are not nil point to.
abbrev pub present : {A : Type 0} → List (Option A) → List A
present [] = []
present (none ∷ values) = present values
present (some v ∷ values) = v ∷ present values

module _ {A : Type 0} (builder : String) where
  -- `for i := range values { if values[i] == nil { panic(…) }; b.F = append(b.F, *values[i]) }`
  unfoldable pub append_pointers : List (Option A) → List A → Outcome (List A)
  append_pointers [] xs = returned xs
  append_pointers (none ∷ values) xs = panicked (nil_passed_to builder) xs
  append_pointers (some v ∷ values) xs = append_pointers values (xs ++ v ∷ [])

  -- What a loop over these values ends with: a panic where one of them is nil.
  abbrev pub ending : {B : Type 0} → List (Option A) → B → Outcome B
  ending [] b = returned b
  ending (none ∷ values) b = panicked (nil_passed_to builder) b
  ending (some v ∷ values) b = ending values b

  -- The values in front of the first nil are appended in their order, and a nil panics.
  pub append_pointers_lem :
      (values : List (Option A)) (xs : List A)
      → append_pointers values xs ≡ ending values (xs ++ in_front values)
  unfolding append_pointers
  append_pointers_lem [] xs = rw append-nil refl
  append_pointers_lem (none ∷ values) xs = rw append-nil refl
  append_pointers_lem (some v ∷ values) xs =
      append_pointers_lem values (xs ++ v ∷ [])
      ∙ ap (ending values) (append_assoc xs (v ∷ []) (in_front values))

  pub append_pointers-nil :
      (before : List A) (after : List (Option A)) (xs : List A)
      → append_pointers (map some before ++ none ∷ after) xs
        ≡ panicked (nil_passed_to builder) (xs ++ before)
  unfolding append_pointers
  append_pointers-nil [] after xs = rw append-nil refl
  append_pointers-nil (v ∷ before) after xs =
      append_pointers-nil before after (xs ++ v ∷ [])
      ∙ ap (panicked (nil_passed_to builder)) (append_assoc xs (v ∷ []) before)

  pub append_pointers-present :
      (values : List (Option A)) (xs : List A)
      → All (λ v. v ≢ none) values
      → append_pointers values xs ≡ returned (xs ++ present values)
  unfolding append_pointers
  append_pointers-present [] xs h = rw append-nil refl
  append_pointers-present (none ∷ values) xs h = absurd (h.0 refl)
  append_pointers-present (some v ∷ values) xs h =
      append_pointers-present values (xs ++ v ∷ []) h.1
      ∙ ap returned (append_assoc xs (v ∷ []) (present values))

-- `for i := range values { b.F = append(b.F, values[i]) }`
pub append_values : {A : Type 0} → List A → List A → List A
append_values [] xs = xs
append_values (v ∷ values) xs = append_values values (xs ++ v ∷ [])

pub append_values_lem : {A : Type 0} (values xs : List A) → append_values values xs ≡ xs ++ values
unfolding append_values
append_values_lem [] xs = rw append-nil refl
append_values_lem (v ∷ values) xs =
    append_values_lem values (xs ++ v ∷ []) ∙ append_assoc xs (v ∷ []) values
