-- ===== src/ApplyConfiguration/Agentgateway/BackendAi.antt =====
-- mycelium/internal/applyconfiguration/v1alpha1/agentgateway/backendai.go
use agentic_platform.Prelude.{List, Option, String, [], none, refl, ◌∷◌}
use agentic_platform.ApplyConfiguration.{Outcome, map_outcome}
use agentic_platform.ApplyConfiguration.Maps.{GoMap, put_entries}
use agentic_platform.ApplyConfiguration.Appends.{append_pointers}
use agentic_platform.ApplyConfiguration.Json.{
  Fields, Json, map_field, object_of, pointer_field, slice_field, text,
}
use agentic_platform.ApplyConfiguration.Foreign.{Foreign}
use agentic_platform.ApplyConfiguration.Builder.{Builder, Configuration, IsSound, ◌▸◌}
use agentic_platform.ApplyConfiguration.Builder.Kinds.{
  entries_builder, entries_IsFaithful, pointer_builder, pointer_IsFaithful, pointers_builder,
  pointers_IsFaithful,
}
use agentic_platform.ApplyConfiguration.Agentgateway.AiPromptEnrichment.{
  AiPromptEnrichment, encode_ai_prompt_enrichment,
}
use agentic_platform.ApplyConfiguration.Agentgateway.AiPromptGuard.{
  AiPromptGuard, encode_ai_prompt_guard,
}
use agentic_platform.ApplyConfiguration.Agentgateway.FieldDefault.{
  FieldDefault, encode_field_default,
}
use agentic_platform.ApplyConfiguration.Agentgateway.FieldTransformation.{
  FieldTransformation, encode_field_transformation,
}
use agentic_platform.ApplyConfiguration.Agentgateway.PromptCachingConfig.{
  PromptCachingConfig, encode_prompt_caching_config,
}

module _ (x : Foreign) where
  pub record BackendAi : Type 0 where
    pub prompt_enrichment : Option (AiPromptEnrichment x)
    pub prompt_guard : Option (AiPromptGuard x)
    pub defaults : List (FieldDefault x)
    pub overrides : List (FieldDefault x)
    pub transformations : List (FieldTransformation x)
    pub model_aliases : GoMap String
    pub prompt_caching : Option (PromptCachingConfig x)
    pub routes : GoMap x.route_type.Carrier

  abbrev pub backend_ai : BackendAi
  backend_ai = record {
    prompt_enrichment = none;
    prompt_guard = none;
    defaults = [];
    overrides = [];
    transformations = [];
    model_aliases = none;
    prompt_caching = none;
    routes = none;
  }

  abbrev pub with_prompt_enrichment : Option (AiPromptEnrichment x) → BackendAi → BackendAi
  with_prompt_enrichment v b = record b { prompt_enrichment = v }

  abbrev pub with_prompt_guard : Option (AiPromptGuard x) → BackendAi → BackendAi
  with_prompt_guard v b = record b { prompt_guard = v }

  abbrev pub with_defaults : List (Option (FieldDefault x)) → BackendAi → Outcome BackendAi
  with_defaults values b =
      map_outcome (λ xs. record b { defaults = xs })
        (append_pointers "WithDefaults" values b.defaults)

  abbrev pub with_overrides : List (Option (FieldDefault x)) → BackendAi → Outcome BackendAi
  with_overrides values b =
      map_outcome (λ xs. record b { overrides = xs })
        (append_pointers "WithOverrides" values b.overrides)

  abbrev pub with_transformations :
      List (Option (FieldTransformation x)) → BackendAi → Outcome BackendAi
  with_transformations values b =
      map_outcome (λ xs. record b { transformations = xs })
        (append_pointers "WithTransformations" values b.transformations)

  abbrev pub with_model_aliases : List (String × String) → BackendAi → Outcome BackendAi
  with_model_aliases entries b =
      map_outcome (λ m. record b { model_aliases = m }) (put_entries entries b.model_aliases)

  abbrev pub with_prompt_caching : Option (PromptCachingConfig x) → BackendAi → BackendAi
  with_prompt_caching v b = record b { prompt_caching = v }

  abbrev pub with_routes : List (String × x.route_type.Carrier) → BackendAi → Outcome BackendAi
  with_routes entries b = map_outcome (λ m. record b { routes = m }) (put_entries entries b.routes)

  abbrev pub backend_ai_fields : BackendAi → Fields
  backend_ai_fields b =
      ("prompt", pointer_field (encode_ai_prompt_enrichment x) b.prompt_enrichment)
      ∷ ("promptGuard", pointer_field (encode_ai_prompt_guard x) b.prompt_guard)
      ∷ ("defaults", slice_field (encode_field_default x) b.defaults)
      ∷ ("overrides", slice_field (encode_field_default x) b.overrides)
      ∷ ("transformations", slice_field (encode_field_transformation x) b.transformations)
      ∷ ("modelAliases", map_field text b.model_aliases)
      ∷ ("promptCaching", pointer_field (encode_prompt_caching_config x) b.prompt_caching)
      ∷ ("routes", map_field x.route_type.encode b.routes)
      ∷ []

  abbrev pub encode_backend_ai : BackendAi → Json
  encode_backend_ai b = object_of (backend_ai_fields b)

  abbrev pub builders : List (Builder backend_ai_fields)
  builders =
      pointer_builder backend_ai_fields "prompt" (encode_ai_prompt_enrichment x)
        with_prompt_enrichment
      ∷ pointer_builder backend_ai_fields "promptGuard" (encode_ai_prompt_guard x) with_prompt_guard
      ∷ pointers_builder backend_ai_fields "defaults" (encode_field_default x) "WithDefaults"
          with_defaults
      ∷ pointers_builder backend_ai_fields "overrides" (encode_field_default x) "WithOverrides"
          with_overrides
      ∷ pointers_builder backend_ai_fields "transformations" (encode_field_transformation x)
          "WithTransformations" with_transformations
      ∷ entries_builder backend_ai_fields "modelAliases" text with_model_aliases
      ∷ pointer_builder backend_ai_fields "promptCaching" (encode_prompt_caching_config x)
          with_prompt_caching
      ∷ entries_builder backend_ai_fields "routes" x.route_type.encode with_routes
      ∷ []

  abbrev pub configuration : Configuration
  configuration = record {
    Self = BackendAi;
    fields = backend_ai_fields;
    empty = backend_ai;
    builders = builders;
  }

  pub configuration-IsSound : IsSound configuration
  configuration-IsSound = record {
    unset = refl;
    faithful =
        pointer_IsFaithful 0 (λ b. refl) (λ a b. refl)
        ▸ pointer_IsFaithful 1 (λ b. refl) (λ a b. refl)
        ▸ pointers_IsFaithful 2 (λ b. refl) (λ b. b.defaults) (λ xs b. record b { defaults = xs })
            (λ xs b. refl) (λ b. refl) "WithDefaults" (λ a b. refl)
        ▸ pointers_IsFaithful 3 (λ b. refl) (λ b. b.overrides) (λ xs b. record b { overrides = xs })
            (λ xs b. refl) (λ b. refl) "WithOverrides" (λ a b. refl)
        ▸ pointers_IsFaithful 4 (λ b. refl) (λ b. b.transformations)
            (λ xs b. record b { transformations = xs }) (λ xs b. refl) (λ b. refl)
            "WithTransformations" (λ a b. refl)
        ▸ entries_IsFaithful 5 (λ b. refl) (λ b. b.model_aliases)
            (λ m b. record b { model_aliases = m }) (λ m b. refl) (λ b. refl) (λ a b. refl)
        ▸ pointer_IsFaithful 6 (λ b. refl) (λ a b. refl)
        ▸ entries_IsFaithful 7 (λ b. refl) (λ b. b.routes) (λ m b. record b { routes = m })
            (λ m b. refl) (λ b. refl) (λ a b. refl)
        ▸ tt;
  }
