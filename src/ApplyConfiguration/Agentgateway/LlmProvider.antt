-- ===== src/ApplyConfiguration/Agentgateway/LlmProvider.antt =====
-- mycelium/internal/applyconfiguration/v1alpha1/agentgateway/llmprovider.go
use agentic_platform.Prelude.{List, Option, String, [], none, refl, some, ◌∷◌}
use agentic_platform.Prelude.Int.{ℤ}
use agentic_platform.ApplyConfiguration.Json.{Fields, Json, number, object_of, pointer_field, text}
use agentic_platform.ApplyConfiguration.Foreign.{Foreign}
use agentic_platform.ApplyConfiguration.Builder.{Builder, Configuration, IsSound, ◌▸◌}
use agentic_platform.ApplyConfiguration.Builder.Kinds.{
  pointer_builder, pointer_IsFaithful, value_builder, value_IsFaithful,
}
use agentic_platform.ApplyConfiguration.Agentgateway.AnthropicConfig.{
  AnthropicConfig, encode_anthropic_config,
}
use agentic_platform.ApplyConfiguration.Agentgateway.AzureConfig.{AzureConfig, encode_azure_config}
use agentic_platform.ApplyConfiguration.Agentgateway.AzureOpenAiConfig.{
  AzureOpenAiConfig, encode_azure_open_ai_config,
}
use agentic_platform.ApplyConfiguration.Agentgateway.BedrockConfig.{
  BedrockConfig, encode_bedrock_config,
}
use agentic_platform.ApplyConfiguration.Agentgateway.GeminiConfig.{
  GeminiConfig, encode_gemini_config,
}
use agentic_platform.ApplyConfiguration.Agentgateway.OpenAiConfig.{
  OpenAiConfig, encode_open_ai_config,
}
use agentic_platform.ApplyConfiguration.Agentgateway.VertexAiConfig.{
  VertexAiConfig, encode_vertex_ai_config,
}

module _ (x : Foreign) where
  pub record LlmProvider : Type 0 where
    pub open_ai : Option (OpenAiConfig x)
    pub azure_open_ai : Option (AzureOpenAiConfig x)
    pub azure : Option (AzureConfig x)
    pub anthropic : Option (AnthropicConfig x)
    pub gemini : Option (GeminiConfig x)
    pub vertex_ai : Option (VertexAiConfig x)
    pub bedrock : Option (BedrockConfig x)
    pub host : Option String
    pub port : Option ℤ
    pub path : Option String
    pub path_prefix : Option String

  abbrev pub llm_provider : LlmProvider
  llm_provider = record {
    open_ai = none;
    azure_open_ai = none;
    azure = none;
    anthropic = none;
    gemini = none;
    vertex_ai = none;
    bedrock = none;
    host = none;
    port = none;
    path = none;
    path_prefix = none;
  }

  abbrev pub with_open_ai : Option (OpenAiConfig x) → LlmProvider → LlmProvider
  with_open_ai v b = record b { open_ai = v }

  abbrev pub with_azure_open_ai : Option (AzureOpenAiConfig x) → LlmProvider → LlmProvider
  with_azure_open_ai v b = record b { azure_open_ai = v }

  abbrev pub with_azure : Option (AzureConfig x) → LlmProvider → LlmProvider
  with_azure v b = record b { azure = v }

  abbrev pub with_anthropic : Option (AnthropicConfig x) → LlmProvider → LlmProvider
  with_anthropic v b = record b { anthropic = v }

  abbrev pub with_gemini : Option (GeminiConfig x) → LlmProvider → LlmProvider
  with_gemini v b = record b { gemini = v }

  abbrev pub with_vertex_ai : Option (VertexAiConfig x) → LlmProvider → LlmProvider
  with_vertex_ai v b = record b { vertex_ai = v }

  abbrev pub with_bedrock : Option (BedrockConfig x) → LlmProvider → LlmProvider
  with_bedrock v b = record b { bedrock = v }

  abbrev pub with_host : String → LlmProvider → LlmProvider
  with_host v b = record b { host = some v }

  abbrev pub with_port : ℤ → LlmProvider → LlmProvider
  with_port v b = record b { port = some v }

  abbrev pub with_path : String → LlmProvider → LlmProvider
  with_path v b = record b { path = some v }

  abbrev pub with_path_prefix : String → LlmProvider → LlmProvider
  with_path_prefix v b = record b { path_prefix = some v }

  abbrev pub llm_provider_fields : LlmProvider → Fields
  llm_provider_fields b =
      ("openai", pointer_field (encode_open_ai_config x) b.open_ai)
      ∷ ("azureopenai", pointer_field (encode_azure_open_ai_config x) b.azure_open_ai)
      ∷ ("azure", pointer_field (encode_azure_config x) b.azure)
      ∷ ("anthropic", pointer_field (encode_anthropic_config x) b.anthropic)
      ∷ ("gemini", pointer_field (encode_gemini_config x) b.gemini)
      ∷ ("vertexai", pointer_field (encode_vertex_ai_config x) b.vertex_ai)
      ∷ ("bedrock", pointer_field (encode_bedrock_config x) b.bedrock)
      ∷ ("host", pointer_field text b.host)
      ∷ ("port", pointer_field number b.port)
      ∷ ("path", pointer_field text b.path)
      ∷ ("pathPrefix", pointer_field text b.path_prefix)
      ∷ []

  abbrev pub encode_llm_provider : LlmProvider → Json
  encode_llm_provider b = object_of (llm_provider_fields b)

  abbrev pub builders : List (Builder llm_provider_fields)
  builders =
      pointer_builder llm_provider_fields "openai" (encode_open_ai_config x) with_open_ai
      ∷ pointer_builder llm_provider_fields "azureopenai" (encode_azure_open_ai_config x)
          with_azure_open_ai
      ∷ pointer_builder llm_provider_fields "azure" (encode_azure_config x) with_azure
      ∷ pointer_builder llm_provider_fields "anthropic" (encode_anthropic_config x) with_anthropic
      ∷ pointer_builder llm_provider_fields "gemini" (encode_gemini_config x) with_gemini
      ∷ pointer_builder llm_provider_fields "vertexai" (encode_vertex_ai_config x) with_vertex_ai
      ∷ pointer_builder llm_provider_fields "bedrock" (encode_bedrock_config x) with_bedrock
      ∷ value_builder llm_provider_fields "host" text with_host
      ∷ value_builder llm_provider_fields "port" number with_port
      ∷ value_builder llm_provider_fields "path" text with_path
      ∷ value_builder llm_provider_fields "pathPrefix" text with_path_prefix
      ∷ []

  abbrev pub configuration : Configuration
  configuration = record {
    Self = LlmProvider;
    fields = llm_provider_fields;
    empty = llm_provider;
    builders = builders;
  }

  pub configuration-IsSound : IsSound configuration
  configuration-IsSound = record {
    unset = refl;
    faithful =
        pointer_IsFaithful 0 (λ b. refl) (λ a b. refl)
        ▸ pointer_IsFaithful 1 (λ b. refl) (λ a b. refl)
        ▸ pointer_IsFaithful 2 (λ b. refl) (λ a b. refl)
        ▸ pointer_IsFaithful 3 (λ b. refl) (λ a b. refl)
        ▸ pointer_IsFaithful 4 (λ b. refl) (λ a b. refl)
        ▸ pointer_IsFaithful 5 (λ b. refl) (λ a b. refl)
        ▸ pointer_IsFaithful 6 (λ b. refl) (λ a b. refl)
        ▸ value_IsFaithful 7 (λ b. refl) (λ a b. refl)
        ▸ value_IsFaithful 8 (λ b. refl) (λ a b. refl)
        ▸ value_IsFaithful 9 (λ b. refl) (λ a b. refl)
        ▸ value_IsFaithful 10 (λ b. refl) (λ a b. refl)
        ▸ tt;
  }
