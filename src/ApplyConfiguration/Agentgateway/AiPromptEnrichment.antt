-- ===== src/ApplyConfiguration/Agentgateway/AiPromptEnrichment.antt =====
-- mycelium/internal/applyconfiguration/v1alpha1/agentgateway/aipromptenrichment.go
use agentic_platform.Prelude.{List, Option, [], refl, ◌∷◌}
use agentic_platform.ApplyConfiguration.{Outcome, map_outcome}
use agentic_platform.ApplyConfiguration.Appends.{append_pointers}
use agentic_platform.ApplyConfiguration.Json.{Fields, Json, object_of, slice_field}
use agentic_platform.ApplyConfiguration.Foreign.{Foreign}
use agentic_platform.ApplyConfiguration.Builder.{Builder, Configuration, IsSound, ◌▸◌}
use agentic_platform.ApplyConfiguration.Builder.Kinds.{pointers_builder, pointers_IsFaithful}
use agentic_platform.ApplyConfiguration.Agentgateway.Message.{Message, encode_message}

module _ (x : Foreign) where
  pub record AiPromptEnrichment : Type 0 where
    pub prepend : List (Message x)
    pub append : List (Message x)

  abbrev pub ai_prompt_enrichment : AiPromptEnrichment
  ai_prompt_enrichment = record { prepend = []; append = [] }

  abbrev pub with_prepend :
      List (Option (Message x)) → AiPromptEnrichment → Outcome AiPromptEnrichment
  with_prepend values b =
      map_outcome (λ xs. record b { prepend = xs }) (append_pointers "WithPrepend" values b.prepend)

  abbrev pub with_append :
      List (Option (Message x)) → AiPromptEnrichment → Outcome AiPromptEnrichment
  with_append values b =
      map_outcome (λ xs. record b { append = xs }) (append_pointers "WithAppend" values b.append)

  abbrev pub ai_prompt_enrichment_fields : AiPromptEnrichment → Fields
  ai_prompt_enrichment_fields b =
      ("prepend", slice_field (encode_message x) b.prepend)
      ∷ ("append", slice_field (encode_message x) b.append)
      ∷ []

  abbrev pub encode_ai_prompt_enrichment : AiPromptEnrichment → Json
  encode_ai_prompt_enrichment b = object_of (ai_prompt_enrichment_fields b)

  abbrev pub builders : List (Builder ai_prompt_enrichment_fields)
  builders =
      pointers_builder ai_prompt_enrichment_fields "prepend" (encode_message x) "WithPrepend"
        with_prepend
      ∷ pointers_builder ai_prompt_enrichment_fields "append" (encode_message x) "WithAppend"
          with_append
      ∷ []

  abbrev pub configuration : Configuration
  configuration = record {
    Self = AiPromptEnrichment;
    fields = ai_prompt_enrichment_fields;
    empty = ai_prompt_enrichment;
    builders = builders;
  }

  pub configuration-IsSound : IsSound configuration
  configuration-IsSound = record {
    unset = refl;
    faithful =
        pointers_IsFaithful 0 (λ b. refl) (λ b. b.prepend) (λ xs b. record b { prepend = xs })
          (λ xs b. refl) (λ b. refl) "WithPrepend" (λ a b. refl)
        ▸ pointers_IsFaithful 1 (λ b. refl) (λ b. b.append) (λ xs b. record b { append = xs })
            (λ xs b. refl) (λ b. refl) "WithAppend" (λ a b. refl)
        ▸ tt;
  }
