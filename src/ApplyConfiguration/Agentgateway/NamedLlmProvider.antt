-- ===== src/ApplyConfiguration/Agentgateway/NamedLlmProvider.antt =====
-- mycelium/internal/applyconfiguration/v1alpha1/agentgateway/namedllmprovider.go
use agentic_platform.Prelude.{List, Option, String, [], none, refl, some, ◌++◌, ◌∷◌}
use agentic_platform.Prelude.Int.{ℤ}
use agentic_platform.ApplyConfiguration.Json.{Fields, Json, number, object_of, pointer_field, text}
use agentic_platform.ApplyConfiguration.Foreign.{Foreign}
use agentic_platform.ApplyConfiguration.Builder.{Builder, Configuration, IsSound, ◌▸◌}
use agentic_platform.ApplyConfiguration.Builder.Kinds.{
  pointer_builder, pointer_IsFaithful, value_builder, value_IsFaithful,
}
use agentic_platform.ApplyConfiguration.Agentgateway.AnthropicConfig.{
  AnthropicConfig, encode_anthropic_config,
}
use agentic_platform.ApplyConfiguration.Agentgateway.AzureConfig.{AzureConfig, encode_azure_config}
use agentic_platform.ApplyConfiguration.Agentgateway.AzureOpenAiConfig.{
  AzureOpenAiConfig, encode_azure_open_ai_config,
}
use agentic_platform.ApplyConfiguration.Agentgateway.BackendWithAi.{
  BackendWithAi, encode_backend_with_ai,
}
use agentic_platform.ApplyConfiguration.Agentgateway.BedrockConfig.{
  BedrockConfig, encode_bedrock_config,
}
use agentic_platform.ApplyConfiguration.Agentgateway.GeminiConfig.{
  GeminiConfig, encode_gemini_config,
}
use agentic_platform.ApplyConfiguration.Agentgateway.LlmProvider.{
  LlmProvider, llm_provider, llm_provider_fields,
}
use agentic_platform.ApplyConfiguration.Agentgateway.OpenAiConfig.{
  OpenAiConfig, encode_open_ai_config,
}
use agentic_platform.ApplyConfiguration.Agentgateway.VertexAiConfig.{
  VertexAiConfig, encode_vertex_ai_config,
}

module _ (x : Foreign) where
  pub record NamedLlmProvider : Type 0 where
    pub name : Option x.section_name.Carrier
    pub policies : Option (BackendWithAi x)
    pub llm_provider : LlmProvider x

  abbrev pub named_llm_provider : NamedLlmProvider
  named_llm_provider = record { name = none; policies = none; llm_provider = llm_provider x }

  abbrev pub with_name : x.section_name.Carrier → NamedLlmProvider → NamedLlmProvider
  with_name v b = record b { name = some v }

  abbrev pub with_policies : Option (BackendWithAi x) → NamedLlmProvider → NamedLlmProvider
  with_policies v b = record b { policies = v }

  abbrev pub with_open_ai : Option (OpenAiConfig x) → NamedLlmProvider → NamedLlmProvider
  with_open_ai v b = record b { llm_provider = record (b.llm_provider) { open_ai = v } }

  abbrev pub with_azure_open_ai : Option (AzureOpenAiConfig x) → NamedLlmProvider → NamedLlmProvider
  with_azure_open_ai v b = record b { llm_provider = record (b.llm_provider) { azure_open_ai = v } }

  abbrev pub with_azure : Option (AzureConfig x) → NamedLlmProvider → NamedLlmProvider
  with_azure v b = record b { llm_provider = record (b.llm_provider) { azure = v } }

  abbrev pub with_anthropic : Option (AnthropicConfig x) → NamedLlmProvider → NamedLlmProvider
  with_anthropic v b = record b { llm_provider = record (b.llm_provider) { anthropic = v } }

  abbrev pub with_gemini : Option (GeminiConfig x) → NamedLlmProvider → NamedLlmProvider
  with_gemini v b = record b { llm_provider = record (b.llm_provider) { gemini = v } }

  abbrev pub with_vertex_ai : Option (VertexAiConfig x) → NamedLlmProvider → NamedLlmProvider
  with_vertex_ai v b = record b { llm_provider = record (b.llm_provider) { vertex_ai = v } }

  abbrev pub with_bedrock : Option (BedrockConfig x) → NamedLlmProvider → NamedLlmProvider
  with_bedrock v b = record b { llm_provider = record (b.llm_provider) { bedrock = v } }

  abbrev pub with_host : String → NamedLlmProvider → NamedLlmProvider
  with_host v b = record b { llm_provider = record (b.llm_provider) { host = some v } }

  abbrev pub with_port : ℤ → NamedLlmProvider → NamedLlmProvider
  with_port v b = record b { llm_provider = record (b.llm_provider) { port = some v } }

  abbrev pub with_path : String → NamedLlmProvider → NamedLlmProvider
  with_path v b = record b { llm_provider = record (b.llm_provider) { path = some v } }

  abbrev pub with_path_prefix : String → NamedLlmProvider → NamedLlmProvider
  with_path_prefix v b = record b {
    llm_provider = record (b.llm_provider) { path_prefix = some v };
  }

  abbrev pub named_llm_provider_fields : NamedLlmProvider → Fields
  named_llm_provider_fields b =
      ("name", pointer_field x.section_name.encode b.name)
        ∷ ("policies", pointer_field (encode_backend_with_ai x) b.policies)
        ∷ []
      ++ llm_provider_fields x b.llm_provider

  abbrev pub encode_named_llm_provider : NamedLlmProvider → Json
  encode_named_llm_provider b = object_of (named_llm_provider_fields b)

  abbrev pub builders : List (Builder named_llm_provider_fields)
  builders =
      value_builder named_llm_provider_fields "name" x.section_name.encode with_name
      ∷ pointer_builder named_llm_provider_fields "policies" (encode_backend_with_ai x)
          with_policies
      ∷ pointer_builder named_llm_provider_fields "openai" (encode_open_ai_config x) with_open_ai
      ∷ pointer_builder named_llm_provider_fields "azureopenai" (encode_azure_open_ai_config x)
          with_azure_open_ai
      ∷ pointer_builder named_llm_provider_fields "azure" (encode_azure_config x) with_azure
      ∷ pointer_builder named_llm_provider_fields "anthropic" (encode_anthropic_config x)
          with_anthropic
      ∷ pointer_builder named_llm_provider_fields "gemini" (encode_gemini_config x) with_gemini
      ∷ pointer_builder named_llm_provider_fields "vertexai" (encode_vertex_ai_config x)
          with_vertex_ai
      ∷ pointer_builder named_llm_provider_fields "bedrock" (encode_bedrock_config x) with_bedrock
      ∷ value_builder named_llm_provider_fields "host" text with_host
      ∷ value_builder named_llm_provider_fields "port" number with_port
      ∷ value_builder named_llm_provider_fields "path" text with_path
      ∷ value_builder named_llm_provider_fields "pathPrefix" text with_path_prefix
      ∷ []

  abbrev pub configuration : Configuration
  configuration = record {
    Self = NamedLlmProvider;
    fields = named_llm_provider_fields;
    empty = named_llm_provider;
    builders = builders;
  }

  pub configuration-IsSound : IsSound configuration
  configuration-IsSound = record {
    unset = refl;
    faithful =
        value_IsFaithful 0 (λ b. refl) (λ a b. refl)
        ▸ pointer_IsFaithful 1 (λ b. refl) (λ a b. refl)
        ▸ pointer_IsFaithful 2 (λ b. refl) (λ a b. refl)
        ▸ pointer_IsFaithful 3 (λ b. refl) (λ a b. refl)
        ▸ pointer_IsFaithful 4 (λ b. refl) (λ a b. refl)
        ▸ pointer_IsFaithful 5 (λ b. refl) (λ a b. refl)
        ▸ pointer_IsFaithful 6 (λ b. refl) (λ a b. refl)
        ▸ pointer_IsFaithful 7 (λ b. refl) (λ a b. refl)
        ▸ pointer_IsFaithful 8 (λ b. refl) (λ a b. refl)
        ▸ value_IsFaithful 9 (λ b. refl) (λ a b. refl)
        ▸ value_IsFaithful 10 (λ b. refl) (λ a b. refl)
        ▸ value_IsFaithful 11 (λ b. refl) (λ a b. refl)
        ▸ value_IsFaithful 12 (λ b. refl) (λ a b. refl)
        ▸ tt;
  }
