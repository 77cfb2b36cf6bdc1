-- ===== src/ApplyConfiguration/Builder/Kinds.antt =====
-- The shapes of the generated methods: one that stores the address of its argument, one that stores a
-- pointer, one that appends to a slice of values or of what pointers point to, and one that fills a map.
use std.Path.{fun_ext}
use mathlib.Core.List.{append-nil}
use agentic_platform.Prelude.{
  ◌≡◌, refl, ap, sym, ◌∙◌, ℕ, String, true, Option, none, some, List, [], ◌∷◌, ◌++◌,
}
use agentic_platform.ApplyConfiguration.{Outcome, returned, map_outcome}
use agentic_platform.ApplyConfiguration.Appends.{
  nil_passed_to, append_pointers, append_pointers_lem, in_front, ending, append_values,
  append_values_lem,
}
use agentic_platform.ApplyConfiguration.Maps.{
  GoMap, put_entries, value_in, lookup, or_else, overlaid,
}
use agentic_platform.ApplyConfiguration.Maps.Order.{put_entries_lem}
use agentic_platform.ApplyConfiguration.Json.{
  Json, Items, no_items, item, array, dictionary, Entry, absent, present, Fields, pointer_field,
  items_of, slice_field, entry_of, map_field,
}
use agentic_platform.ApplyConfiguration.Builder.{
  Builder, IsFaithful, stands_at, names, content_at, set_at, state, error_of, IsFaithful-set_at,
}

abbrev pub append_items : Items → Items → Items
append_items no_items js = js
append_items (item i is) js = item i (append_items is js)

-- An array with items appended; no item makes no array.
abbrev pub extend : Items → Option Json → Option Json
extend no_items old = old
extend (item j js) none = some (array (item j js))
extend (item j js) (some (array is)) = some (array (append_items is (item j js)))
extend (item j js) (some other) = some other

abbrev pub entry_at : Option Json → String → Entry
entry_at (some (dictionary f)) k = f k
entry_at _ k = absent

-- A dictionary with entries in front of its own; no entry makes no dictionary.
abbrev pub cover : {A : Type 0} → (A → Json) → List (String × A) → Option Json → Option Json
cover encode [] old = old
cover encode (e ∷ es) old = some (
    dictionary
      (λ k. elim (value_in (e ∷ es) k) [ some v ↦ present (encode v) | none ↦ entry_at old k ]))

-- The panic of a loop over these values, if any of them is nil.
abbrev pub nil_error : {A : Type 0} → String → List (Option A) → Option String
nil_error builder [] = none
nil_error builder (none ∷ values) = some (nil_passed_to builder)
nil_error builder (some v ∷ values) = nil_error builder values

module _ {Self A : Type 0} (fields : Self → Fields) (member : String) (encode : A → Json) where
  -- `b.F = &value`
  abbrev pub value_builder : (A → Self → Self) → Builder fields
  value_builder apply = record {
    Arg = A;
    apply = λ a b. returned (apply a b);
    member = member;
    effect = λ a old. some (encode a);
    error = λ a. none;
  }

  -- `b.F = value`
  abbrev pub pointer_builder : (Option A → Self → Self) → Builder fields
  pointer_builder apply = record {
    Arg = Option A;
    apply = λ a b. returned (apply a b);
    member = member;
    effect = λ a old. pointer_field encode a;
    error = λ a. none;
  }

  -- `b.F = append(b.F, values[i])`
  abbrev pub values_builder : (List A → Self → Self) → Builder fields
  values_builder apply = record {
    Arg = List A;
    apply = λ a b. returned (apply a b);
    member = member;
    effect = λ a old. extend (items_of encode a) old;
    error = λ a. none;
  }

  -- `b.F = append(b.F, *values[i])`
  abbrev pub pointers_builder : String → (List (Option A) → Self → Outcome Self) → Builder fields
  pointers_builder builder apply = record {
    Arg = List (Option A);
    apply = apply;
    member = member;
    effect = λ a old. extend (items_of encode (in_front a)) old;
    error = nil_error builder;
  }

  -- `b.F[k] = v`
  abbrev pub entries_builder : (List (String × A) → Self → Outcome Self) → Builder fields
  entries_builder apply = record {
    Arg = List (String × A);
    apply = apply;
    member = member;
    effect = cover encode;
    error = λ a. none;
  }

module _ {A : Type 0} (encode : A → Json) where
  items_of-append :
      (xs ys : List A)
      → items_of encode (xs ++ ys) ≡ append_items (items_of encode xs) (items_of encode ys)
  items_of-append [] ys = refl
  items_of-append (x ∷ xs) ys = ap (item (encode x)) (items_of-append xs ys)

  slice_field-append :
      (xs ys : List A)
      → slice_field encode (xs ++ ys) ≡ extend (items_of encode ys) (slice_field encode xs)
  slice_field-append [] [] = refl
  slice_field-append (x ∷ xs) [] = ap (slice_field encode) (append-nil (x ∷ xs))
  slice_field-append [] (y ∷ ys) = refl
  slice_field-append (x ∷ xs) (y ∷ ys) =
      ap (λ is. some (array (item (encode x) is))) (items_of-append xs (y ∷ ys))

  entry_of-or_else :
      (o p : Option A)
      → entry_of encode (or_else o p)
        ≡ (elim o [ some v ↦ present (encode v) | none ↦ entry_of encode p ])
  entry_of-or_else none p = refl
  entry_of-or_else (some v) p = refl

  map_field-lookup :
      (m : GoMap A) (k : String) → entry_of encode (lookup m k) ≡ entry_at (map_field encode m) k
  map_field-lookup none k = refl
  map_field-lookup (some f) k = refl

  map_field-overlaid :
      (es : List (String × A)) (m : GoMap A)
      → map_field encode (overlaid es m) ≡ cover encode es (map_field encode m)
  map_field-overlaid [] m = refl
  map_field-overlaid (e ∷ es) m =
      ap (λ f. some (dictionary f))
        (fun_ext (λ k.
          entry_of-or_else (value_in (e ∷ es) k) (lookup m k)
          ∙ ap (λ d. elim (value_in (e ∷ es) k) [ some v ↦ present (encode v) | none ↦ d ])
              (map_field-lookup m k)))

module _ {A B C : Type 0} (builder : String) (g : B → C) (b : B) where
  error_of-ending :
      (values : List (Option A))
      → error_of (map_outcome g (ending builder values b)) ≡ nil_error builder values
  error_of-ending [] = refl
  error_of-ending (none ∷ values) = refl
  error_of-ending (some v ∷ values) = error_of-ending values

  state-ending : (values : List (Option A)) → state (map_outcome g (ending builder values b)) ≡ g b
  state-ending [] = refl
  state-ending (none ∷ values) = refl
  state-ending (some v ∷ values) = state-ending values

module _ {Self A : Type 0} (fields : Self → Fields) (encode : A → Json) (i : ℕ)
    (get : Self → List A) (set : List A → Self → Self)
    (sets : (xs : List A) (b : Self)
      → fields (set xs b) ≡ set_at i (slice_field encode xs) (fields b))
    (gets : (b : Self) → content_at i (fields b) ≡ slice_field encode (get b)) where
  fields-appended :
      (xs : List A) (b : Self)
      → fields (set (get b ++ xs) b)
        ≡ set_at i (extend (items_of encode xs) (content_at i (fields b))) (fields b)
  fields-appended xs b =
      sets (get b ++ xs) b
      ∙ ap (λ o. set_at i o (fields b))
          (slice_field-append encode (get b) xs ∙ ap (extend (items_of encode xs)) (sym (gets b)))

module _ {Self A : Type 0} {fields : Self → Fields} {member : String} {encode : A → Json} (i : ℕ)
    (place : (b : Self) → stands_at i member (names (fields b)) ≡ true) where
  -- A method that stores its argument in the field of its member.
  pub value_IsFaithful :
      {apply : A → Self → Self}
      → ((a : A) (b : Self) → fields (apply a b) ≡ set_at i (some (encode a)) (fields b))
      → IsFaithful (value_builder fields member encode apply)
  value_IsFaithful {apply} sets =
      IsFaithful-set_at (value_builder fields member encode apply) i place sets (λ a b. refl)

  pub pointer_IsFaithful :
      {apply : Option A → Self → Self}
      → ((a : Option A) (b : Self)
          → fields (apply a b) ≡ set_at i (pointer_field encode a) (fields b))
      → IsFaithful (pointer_builder fields member encode apply)
  pointer_IsFaithful {apply} sets =
      IsFaithful-set_at (pointer_builder fields member encode apply) i place sets (λ a b. refl)

  module _ (get : Self → List A) (set : List A → Self → Self)
      (sets : (xs : List A) (b : Self)
        → fields (set xs b) ≡ set_at i (slice_field encode xs) (fields b))
      (gets : (b : Self) → content_at i (fields b) ≡ slice_field encode (get b)) where
    -- A method that appends its values to the slice of its member.
    pub values_IsFaithful :
        {apply : List A → Self → Self}
        → ((a : List A) (b : Self) → apply a b ≡ set (append_values a (get b)) b)
        → IsFaithful (values_builder fields member encode apply)
    values_IsFaithful {apply} loops =
        IsFaithful-set_at (values_builder fields member encode apply) i place
          (λ a b.
            ap fields (loops a b ∙ ap (λ xs. set xs b) (append_values_lem a (get b)))
            ∙ fields-appended fields encode i get set sets gets a b)
          (λ a b. refl)

    -- A method that appends what its pointers point to, and panics at a nil.
    pub pointers_IsFaithful :
        (builder : String) {apply : List (Option A) → Self → Outcome Self}
        → ((a : List (Option A)) (b : Self)
            → apply a b ≡ map_outcome (λ xs. set xs b) (append_pointers builder a (get b)))
        → IsFaithful (pointers_builder fields member encode builder apply)
    pointers_IsFaithful builder {apply} loops =
        let ends : (a : List (Option A)) (b : Self)
            → apply a b ≡ map_outcome (λ xs. set xs b) (ending builder a (get b ++ in_front a)) =
          λ a b.
            loops a b ∙ ap (map_outcome (λ xs. set xs b)) (append_pointers_lem builder a (get b)) in
        IsFaithful-set_at (pointers_builder fields member encode builder apply) i place
          (λ a b.
            ap (λ o. fields (state o)) (ends a b)
            ∙ ap fields (state-ending builder (λ xs. set xs b) (get b ++ in_front a) a)
            ∙ fields-appended fields encode i get set sets gets (in_front a) b)
          (λ a b.
            ap error_of (ends a b)
            ∙ error_of-ending builder (λ xs. set xs b) (get b ++ in_front a) a)

  module _ (get : Self → GoMap A) (set : GoMap A → Self → Self)
      (sets : (m : GoMap A) (b : Self)
        → fields (set m b) ≡ set_at i (map_field encode m) (fields b))
      (gets : (b : Self) → content_at i (fields b) ≡ map_field encode (get b)) where
    -- A method that puts its entries into the map of its member.
    pub entries_IsFaithful :
        {apply : List (String × A) → Self → Outcome Self}
        → ((a : List (String × A)) (b : Self)
            → apply a b ≡ map_outcome (λ m. set m b) (put_entries a (get b)))
        → IsFaithful (entries_builder fields member encode apply)
    entries_IsFaithful {apply} loops =
        let ends : (a : List (String × A)) (b : Self)
            → apply a b ≡ returned (set (overlaid a (get b)) b) =
          λ a b. loops a b ∙ ap (map_outcome (λ m. set m b)) (put_entries_lem a (get b)) in
        IsFaithful-set_at (entries_builder fields member encode apply) i place
          (λ a b.
            ap (λ o. fields (state o)) (ends a b)
            ∙ sets (overlaid a (get b)) b
            ∙ ap (λ o. set_at i o (fields b))
                (map_field-overlaid encode a (get b) ∙ ap (cover encode a) (sym (gets b))))
          (λ a b. ap error_of (ends a b))
