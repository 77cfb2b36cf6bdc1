-- ===== src/ApplyConfiguration/Parser.antt =====
-- mycelium/internal/applyconfiguration/internal/internal.go, and `NewTypeConverter` of
-- mycelium/internal/applyconfiguration/utils.go.
pub mod Concurrent
use agentic_platform.Prelude.{
  ◌≡◌, refl, ap, ap₂, String, Bool, true, false, Option, none, some, List, [], ◌∷◌, concat,
  if◌then◌else◌,
}

-- `typed.NewParser` of structured-merge-diff with its two results, `err.Error()`, and
-- `managedfields.NewSchemeTypeConverter` of apimachinery. A nil pointer is `none`.
pub record Typed : Type 1 where
  pub Parser : Type 0
  pub Error : Type 0
  pub Scheme : Type 0
  pub TypeConverter : Type 0
  pub new_parser : String → Option Parser × Option Error
  pub message : Error → String
  pub new_scheme_type_converter : Scheme → Option Parser → TypeConverter

-- Each line with its end.
abbrev pub unlines : List String → String
unlines [] = ""
unlines (l ∷ ls) = concat l (concat "\n" (unlines ls))

abbrev pub schema_yaml : String
schema_yaml = unlines (
    "types:" ∷ "- name: __untyped_atomic_" ∷ "  scalar: untyped" ∷ "  list:" ∷ "    elementType:"
    ∷ "      namedType: __untyped_atomic_" ∷ "    elementRelationship: atomic" ∷ "  map:"
    ∷ "    elementType:" ∷ "      namedType: __untyped_atomic_" ∷ "    elementRelationship: atomic"
    ∷ "- name: __untyped_deduced_" ∷ "  scalar: untyped" ∷ "  list:" ∷ "    elementType:"
    ∷ "      namedType: __untyped_atomic_" ∷ "    elementRelationship: atomic" ∷ "  map:"
    ∷ "    elementType:" ∷ "      namedType: __untyped_deduced_"
    ∷ "    elementRelationship: separable" ∷ [])

-- How a function ends that may panic: with a value, or with the panic's text.
pub data Ended (A : Type 0) : Type 0 where
  value : A → Ended A
  panics : String → Ended A

abbrev pub map_ended : {A B : Type 0} → (A → B) → Ended A → Ended B
map_ended f (value a) = value (f a)
map_ended f (panics e) = panics e

module _ (t : Typed) where
  -- The variables of the package: what `parserOnce` knows, and `parser`.
  pub record Variables : Type 0 where
    pub done : Bool
    pub parser : Option t.Parser

  abbrev pub initial : Variables
  initial = record { done = false; parser = none }

  -- `if err != nil { panic(fmt.Sprintf("Failed to parse schema: %v", err)) }`
  abbrev pub parse_result : Option t.Error → Ended Unit
  parse_result none = value tt
  parse_result (some e) = panics (concat "Failed to parse schema: " (t.message e))

  -- The function that `Parser` hands to `parserOnce.Do`.
  abbrev pub parse_schema : Variables → Ended Unit × Variables
  parse_schema v =
      let (parsed, err) = t.new_parser schema_yaml in
      (parse_result err, record v { parser = parsed })

  -- `Do` of a `sync.Once`: a call that panics counts as the one call, too.
  abbrev pub do_once : (Variables → Ended Unit × Variables) → Variables → Ended Unit × Variables
  do_once f v = if v.done then (value tt, v) else let (e, w) = f v in (e, record w { done = true })

  pub get_parser : Variables → Ended (Option t.Parser) × Variables
  get_parser v = let (e, w) = do_once parse_schema v in (map_ended (λ u. w.parser) e, w)

  pub new_type_converter : t.Scheme → Variables → Ended t.TypeConverter × Variables
  new_type_converter scheme v =
      let (e, w) = get_parser v in (map_ended (t.new_scheme_type_converter scheme) e, w)

  -- The results of converters asked for one after the other.
  abbrev pub converters : List t.Scheme → Variables → List (Ended t.TypeConverter)
  converters [] v = []
  converters (s ∷ ss) v = let (e, w) = new_type_converter s v in e ∷ converters ss w

  -- What the first request is to give with the error of the parser, if there is one.
  abbrev pub first_converter : t.Scheme → Option t.Error → Ended t.TypeConverter
  first_converter s none = value (t.new_scheme_type_converter s (t.new_parser schema_yaml).0)
  first_converter s (some e) = panics (concat "Failed to parse schema: " (t.message e))

  -- What a request gives when there was one before.
  abbrev pub later_converters : List t.Scheme → List (Ended t.TypeConverter)
  later_converters [] = []
  later_converters (s ∷ ss) =
      value (t.new_scheme_type_converter s (t.new_parser schema_yaml).0) ∷ later_converters ss

  converters-later :
      (ss : List t.Scheme)
      → converters ss (record { done = true; parser = (t.new_parser schema_yaml).0 })
        ≡ later_converters ss
  unfolding get_parser new_type_converter
  converters-later [] = refl
  converters-later (s ∷ ss) =
      ap (λ rs. value (t.new_scheme_type_converter s (t.new_parser schema_yaml).0) ∷ rs)
        (converters-later ss)

  parsed-first_converter :
      (s : t.Scheme) (err : Option t.Error)
      → map_ended
          (t.new_scheme_type_converter s)
          (map_ended (λ u. (t.new_parser schema_yaml).0) (parse_result err))
        ≡ first_converter s err
  parsed-first_converter s none = refl
  parsed-first_converter s (some e) = refl

  -- Of several requests for a type converter the first panics with `Failed to parse schema: …` exactly
  -- where parsing the schema gives an error; all later ones return a converter over what that one
  -- attempt gave, also where it gave an error.
  pub converters-once :
      (s : t.Scheme) (ss : List t.Scheme)
      → converters (s ∷ ss) initial
        ≡ first_converter s (t.new_parser schema_yaml).1 ∷ later_converters ss
  unfolding get_parser new_type_converter
  converters-once s ss = ap₂ (λ r rs. r ∷ rs) (parsed-first_converter s _) (converters-later ss)
