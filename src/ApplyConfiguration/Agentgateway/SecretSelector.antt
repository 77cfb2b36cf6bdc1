-- ===== src/ApplyConfiguration/Agentgateway/SecretSelector.antt =====
-- mycelium/internal/applyconfiguration/v1alpha1/agentgateway/secretselector.go
use agentic_platform.Prelude.{List, String, [], none, refl, ◌∷◌}
use agentic_platform.ApplyConfiguration.{Outcome, map_outcome}
use agentic_platform.ApplyConfiguration.Maps.{GoMap, put_entries}
use agentic_platform.ApplyConfiguration.Json.{Fields, Json, map_field, object_of, text}
use agentic_platform.ApplyConfiguration.Foreign.{Foreign}
use agentic_platform.ApplyConfiguration.Builder.{Builder, Configuration, IsSound, ◌▸◌}
use agentic_platform.ApplyConfiguration.Builder.Kinds.{entries_builder, entries_IsFaithful}

module _ (x : Foreign) where
  pub record SecretSelector : Type 0 where
    pub match_labels : GoMap String

  abbrev pub secret_selector : SecretSelector
  secret_selector = record { match_labels = none }

  abbrev pub with_match_labels : List (String × String) → SecretSelector → Outcome SecretSelector
  with_match_labels entries b =
      map_outcome (λ m. record b { match_labels = m }) (put_entries entries b.match_labels)

  abbrev pub secret_selector_fields : SecretSelector → Fields
  secret_selector_fields b = ("matchLabels", map_field text b.match_labels) ∷ []

  abbrev pub encode_secret_selector : SecretSelector → Json
  encode_secret_selector b = object_of (secret_selector_fields b)

  abbrev pub builders : List (Builder secret_selector_fields)
  builders = entries_builder secret_selector_fields "matchLabels" text with_match_labels ∷ []

  abbrev pub configuration : Configuration
  configuration = record {
    Self = SecretSelector;
    fields = secret_selector_fields;
    empty = secret_selector;
    builders = builders;
  }

  pub configuration-IsSound : IsSound configuration
  configuration-IsSound = record {
    unset = refl;
    faithful =
        entries_IsFaithful 0 (λ b. refl) (λ b. b.match_labels)
          (λ m b. record b { match_labels = m }) (λ m b. refl) (λ b. refl) (λ a b. refl)
        ▸ tt;
  }
