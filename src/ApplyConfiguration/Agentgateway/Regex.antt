-- ===== src/ApplyConfiguration/Agentgateway/Regex.antt =====
-- mycelium/internal/applyconfiguration/v1alpha1/agentgateway/regex.go
use agentic_platform.Prelude.{List, Option, String, [], none, refl, some, ◌∷◌}
use agentic_platform.ApplyConfiguration.Appends.{append_values}
use agentic_platform.ApplyConfiguration.Json.{
  Fields, Json, object_of, pointer_field, slice_field, text,
}
use agentic_platform.ApplyConfiguration.Foreign.{Foreign}
use agentic_platform.ApplyConfiguration.Builder.{Builder, Configuration, IsSound, ◌▸◌}
use agentic_platform.ApplyConfiguration.Builder.Kinds.{
  value_builder, value_IsFaithful, values_builder, values_IsFaithful,
}

module _ (x : Foreign) where
  pub record Regex : Type 0 where
    pub matches : List String
    pub builtins : List x.built_in.Carrier
    pub action : Option x.action.Carrier

  abbrev pub regex : Regex
  regex = record { matches = []; builtins = []; action = none }

  abbrev pub with_matches : List String → Regex → Regex
  with_matches values b = record b { matches = append_values values b.matches }

  abbrev pub with_builtins : List x.built_in.Carrier → Regex → Regex
  with_builtins values b = record b { builtins = append_values values b.builtins }

  abbrev pub with_action : x.action.Carrier → Regex → Regex
  with_action v b = record b { action = some v }

  abbrev pub regex_fields : Regex → Fields
  regex_fields b =
      ("matches", slice_field text b.matches)
      ∷ ("builtins", slice_field x.built_in.encode b.builtins)
      ∷ ("action", pointer_field x.action.encode b.action)
      ∷ []

  abbrev pub encode_regex : Regex → Json
  encode_regex b = object_of (regex_fields b)

  abbrev pub builders : List (Builder regex_fields)
  builders =
      values_builder regex_fields "matches" text with_matches
      ∷ values_builder regex_fields "builtins" x.built_in.encode with_builtins
      ∷ value_builder regex_fields "action" x.action.encode with_action
      ∷ []

  abbrev pub configuration : Configuration
  configuration = record { Self = Regex; fields = regex_fields; empty = regex; builders = builders }

  pub configuration-IsSound : IsSound configuration
  configuration-IsSound = record {
    unset = refl;
    faithful =
        values_IsFaithful 0 (λ b. refl) (λ b. b.matches) (λ xs b. record b { matches = xs })
          (λ xs b. refl) (λ b. refl) (λ a b. refl)
        ▸ values_IsFaithful 1 (λ b. refl) (λ b. b.builtins) (λ xs b. record b { builtins = xs })
            (λ xs b. refl) (λ b. refl) (λ a b. refl)
        ▸ value_IsFaithful 2 (λ b. refl) (λ a b. refl)
        ▸ tt;
  }
