-- ===== src/ApplyConfiguration/Maps.antt =====
-- Go maps with texts for keys, as `WithLabels` of agentgatewaybackend.go and the other builders of maps
-- fill them. A map is `none` where it is nil, and else gives the value of each key. What a loop ranges
-- over is the list of the entries, in the order of that run.
pub mod Order
use agentic_platform.Prelude.{◌≡◌, String, Option, none, some, List, [], ◌∷◌, str_eq, if◌then◌else◌}
use agentic_platform.ApplyConfiguration.{Outcome, returned, panicked}

abbrev pub GoMap : Type 0 → Type 0
GoMap A = Option (String → Option A)

module _ {A : Type 0} where
  -- `m[k] = v`
  abbrev pub put : String → A → (String → Option A) → String → Option A
  put k v m x = if str_eq x k then some v else m x

  -- `for k, v := range entries { m[k] = v }`
  pub assign_all : List (String × A) → GoMap A → Outcome (GoMap A)
  assign_all [] m = returned m
  assign_all ((k, v) ∷ es) none = panicked "assignment to entry in nil map" none
  assign_all ((k, v) ∷ es) (some m) = assign_all es (some (put k v m))

  -- `if m == nil && len(entries) > 0 { m = make(…) }`
  pub made_for : List (String × A) → GoMap A → GoMap A
  made_for (e ∷ es) none = some (λ x. none)
  made_for [] m = m
  made_for (e ∷ es) (some m) = some m

  pub put_entries : List (String × A) → GoMap A → Outcome (GoMap A)
  put_entries es m = assign_all es (made_for es m)

  -- The value of the last entry for a key; in a Go map there is one at most.
  abbrev pub value_in : List (String × A) → String → Option A
  value_in [] x = none
  value_in ((k, v) ∷ es) x = elim (value_in es x) [
    | some w ↦ some w
    | none ↦ if str_eq x k then some v else none
  ]

  abbrev pub lookup : GoMap A → String → Option A
  lookup none x = none
  lookup (some m) x = m x

  abbrev pub or_else : Option A → Option A → Option A
  or_else (some v) o = some v
  or_else none o = o

  -- What a map is to be when entries have been put into it: nil only where it was nil and there are no
  -- entries, else with the entries' values in front of its own.
  abbrev pub overlaid : List (String × A) → GoMap A → GoMap A
  overlaid [] m = m
  overlaid (e ∷ es) m = some (λ x. or_else (value_in (e ∷ es) x) (lookup m x))
