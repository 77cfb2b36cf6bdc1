-- ===== src/Tests/Parsing.antt =====
-- The parser of the schema, asked for in turn and at the same time, with a parser that takes no schema.
use agentic_platform.Prelude.{◌≡◌, refl, String, Option, none, some, [], ◌∷◌}
use agentic_platform.ApplyConfiguration.Parser.{
  Typed, value, panics, initial, converters, first_converter, later_converters, converters-once,
  schema_yaml,
}
use agentic_platform.ApplyConfiguration.Parser.Concurrent.{
  State, unasked, entered, assigned, left, returned_to, enter, assign, leave, return_to, Reach,
  here, next, IsParsedOnce, Reach-IsParsedOnce,
}
use agentic_platform.ApplyConfiguration.Parser.Concurrent.Progress.{
  no_step, one_more, Progress, Run-Progress,
}

-- A parser that takes no schema, and a converter that says which parser it is over.
abbrev typed : Typed
typed = record {
  Parser = String;
  Error = String;
  Scheme = String;
  TypeConverter = String × Option String;
  new_parser = λ yaml. (none, some "no schema");
  message = λ e. e;
  new_scheme_type_converter = λ scheme p. (scheme, p);
}

converters-once_example :
    converters typed ("a" ∷ "b" ∷ []) (initial typed)
    ≡ first_converter typed "a" (typed.new_parser schema_yaml).1 ∷ later_converters typed ("b" ∷ [])
converters-once_example = converters-once typed "a" ("b" ∷ [])

first_converter-panics :
    first_converter typed "a" (typed.new_parser schema_yaml).1
    ≡ panics "Failed to parse schema: no schema"
first_converter-panics = refl

later_converters-none : later_converters typed ("b" ∷ []) ≡ value ("b", none) ∷ []
later_converters-none = refl

-- Goroutine 1 runs the function, and 2 waits for it.
abbrev both_asked : State typed
both_asked = returned_to typed 2 (left typed 1 (assigned typed 1 (entered typed 1 (unasked typed))))

both_asked-Reach : Reach typed (unasked typed) both_asked
both_asked-Reach =
    next (next (next (next here (enter 1 refl)) (assign 1 refl)) (leave 1 refl))
      (return_to 1 2 refl)

both_asked-results :
    (both_asked.results 1 ≡ some (panics "Failed to parse schema: no schema"))
    × (both_asked.results 2 ≡ some (value none))
both_asked-results = (refl, refl)

Reach-IsParsedOnce_example : IsParsedOnce typed both_asked
Reach-IsParsedOnce_example = Reach-IsParsedOnce typed both_asked both_asked-Reach

-- Goroutine 2 can call again.
Run-Progress_example : Progress typed 4 both_asked
Run-Progress_example = Run-Progress typed 4 both_asked (
    one_more (one_more (one_more (one_more no_step (enter 1 refl)) (assign 1 refl)) (leave 1 refl))
      (return_to 1 2 refl))
