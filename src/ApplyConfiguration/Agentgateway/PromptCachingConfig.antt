-- ===== src/ApplyConfiguration/Agentgateway/PromptCachingConfig.antt =====
-- mycelium/internal/applyconfiguration/v1alpha1/agentgateway/promptcachingconfig.go
use agentic_platform.Prelude.{Bool, List, Option, [], none, refl, some, ◌∷◌}
use agentic_platform.Prelude.Int.{ℤ}
use agentic_platform.ApplyConfiguration.Json.{
  Fields, Json, boolean, number, object_of, pointer_field,
}
use agentic_platform.ApplyConfiguration.Foreign.{Foreign}
use agentic_platform.ApplyConfiguration.Builder.{Builder, Configuration, IsSound, ◌▸◌}
use agentic_platform.ApplyConfiguration.Builder.Kinds.{value_builder, value_IsFaithful}

module _ (x : Foreign) where
  pub record PromptCachingConfig : Type 0 where
    pub cache_system : Option Bool
    pub cache_messages : Option Bool
    pub cache_tools : Option Bool
    pub min_tokens : Option ℤ
    pub cache_message_offset : Option ℤ

  abbrev pub prompt_caching_config : PromptCachingConfig
  prompt_caching_config = record {
    cache_system = none;
    cache_messages = none;
    cache_tools = none;
    min_tokens = none;
    cache_message_offset = none;
  }

  abbrev pub with_cache_system : Bool → PromptCachingConfig → PromptCachingConfig
  with_cache_system v b = record b { cache_system = some v }

  abbrev pub with_cache_messages : Bool → PromptCachingConfig → PromptCachingConfig
  with_cache_messages v b = record b { cache_messages = some v }

  abbrev pub with_cache_tools : Bool → PromptCachingConfig → PromptCachingConfig
  with_cache_tools v b = record b { cache_tools = some v }

  abbrev pub with_min_tokens : ℤ → PromptCachingConfig → PromptCachingConfig
  with_min_tokens v b = record b { min_tokens = some v }

  abbrev pub with_cache_message_offset : ℤ → PromptCachingConfig → PromptCachingConfig
  with_cache_message_offset v b = record b { cache_message_offset = some v }

  abbrev pub prompt_caching_config_fields : PromptCachingConfig → Fields
  prompt_caching_config_fields b =
      ("cacheSystem", pointer_field boolean b.cache_system)
      ∷ ("cacheMessages", pointer_field boolean b.cache_messages)
      ∷ ("cacheTools", pointer_field boolean b.cache_tools)
      ∷ ("minTokens", pointer_field number b.min_tokens)
      ∷ ("cacheMessageOffset", pointer_field number b.cache_message_offset)
      ∷ []

  abbrev pub encode_prompt_caching_config : PromptCachingConfig → Json
  encode_prompt_caching_config b = object_of (prompt_caching_config_fields b)

  abbrev pub builders : List (Builder prompt_caching_config_fields)
  builders =
      value_builder prompt_caching_config_fields "cacheSystem" boolean with_cache_system
      ∷ value_builder prompt_caching_config_fields "cacheMessages" boolean with_cache_messages
      ∷ value_builder prompt_caching_config_fields "cacheTools" boolean with_cache_tools
      ∷ value_builder prompt_caching_config_fields "minTokens" number with_min_tokens
      ∷ value_builder prompt_caching_config_fields "cacheMessageOffset" number
          with_cache_message_offset
      ∷ []

  abbrev pub configuration : Configuration
  configuration = record {
    Self = PromptCachingConfig;
    fields = prompt_caching_config_fields;
    empty = prompt_caching_config;
    builders = builders;
  }

  pub configuration-IsSound : IsSound configuration
  configuration-IsSound = record {
    unset = refl;
    faithful =
        value_IsFaithful 0 (λ b. refl) (λ a b. refl)
        ▸ value_IsFaithful 1 (λ b. refl) (λ a b. refl)
        ▸ value_IsFaithful 2 (λ b. refl) (λ a b. refl)
        ▸ value_IsFaithful 3 (λ b. refl) (λ a b. refl)
        ▸ value_IsFaithful 4 (λ b. refl) (λ a b. refl)
        ▸ tt;
  }
