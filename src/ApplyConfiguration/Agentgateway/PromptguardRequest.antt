-- ===== src/ApplyConfiguration/Agentgateway/PromptguardRequest.antt =====
-- mycelium/internal/applyconfiguration/v1alpha1/agentgateway/promptguardrequest.go
use agentic_platform.Prelude.{List, Option, [], none, refl, ◌∷◌}
use agentic_platform.ApplyConfiguration.Json.{Fields, Json, object_of, pointer_field}
use agentic_platform.ApplyConfiguration.Foreign.{Foreign}
use agentic_platform.ApplyConfiguration.Builder.{Builder, Configuration, IsSound, ◌▸◌}
use agentic_platform.ApplyConfiguration.Builder.Kinds.{pointer_builder, pointer_IsFaithful}
use agentic_platform.ApplyConfiguration.Agentgateway.BedrockGuardrails.{
  BedrockGuardrails, encode_bedrock_guardrails,
}
use agentic_platform.ApplyConfiguration.Agentgateway.CustomResponse.{
  CustomResponse, encode_custom_response,
}
use agentic_platform.ApplyConfiguration.Agentgateway.GoogleModelArmor.{
  GoogleModelArmor, encode_google_model_armor,
}
use agentic_platform.ApplyConfiguration.Agentgateway.OpenAiModeration.{
  OpenAiModeration, encode_open_ai_moderation,
}
use agentic_platform.ApplyConfiguration.Agentgateway.Regex.{Regex, encode_regex}
use agentic_platform.ApplyConfiguration.Agentgateway.Webhook.{Webhook, encode_webhook}

module _ (x : Foreign) where
  pub record PromptguardRequest : Type 0 where
    pub custom_response : Option (CustomResponse x)
    pub regex : Option (Regex x)
    pub webhook : Option (Webhook x)
    pub open_ai_moderation : Option (OpenAiModeration x)
    pub bedrock_guardrails : Option (BedrockGuardrails x)
    pub google_model_armor : Option (GoogleModelArmor x)

  abbrev pub promptguard_request : PromptguardRequest
  promptguard_request = record {
    custom_response = none;
    regex = none;
    webhook = none;
    open_ai_moderation = none;
    bedrock_guardrails = none;
    google_model_armor = none;
  }

  abbrev pub with_custom_response :
      Option (CustomResponse x) → PromptguardRequest → PromptguardRequest
  with_custom_response v b = record b { custom_response = v }

  abbrev pub with_regex : Option (Regex x) → PromptguardRequest → PromptguardRequest
  with_regex v b = record b { regex = v }

  abbrev pub with_webhook : Option (Webhook x) → PromptguardRequest → PromptguardRequest
  with_webhook v b = record b { webhook = v }

  abbrev pub with_open_ai_moderation :
      Option (OpenAiModeration x) → PromptguardRequest → PromptguardRequest
  with_open_ai_moderation v b = record b { open_ai_moderation = v }

  abbrev pub with_bedrock_guardrails :
      Option (BedrockGuardrails x) → PromptguardRequest → PromptguardRequest
  with_bedrock_guardrails v b = record b { bedrock_guardrails = v }

  abbrev pub with_google_model_armor :
      Option (GoogleModelArmor x) → PromptguardRequest → PromptguardRequest
  with_google_model_armor v b = record b { google_model_armor = v }

  abbrev pub promptguard_request_fields : PromptguardRequest → Fields
  promptguard_request_fields b =
      ("response", pointer_field (encode_custom_response x) b.custom_response)
      ∷ ("regex", pointer_field (encode_regex x) b.regex)
      ∷ ("webhook", pointer_field (encode_webhook x) b.webhook)
      ∷ ("openAIModeration", pointer_field (encode_open_ai_moderation x) b.open_ai_moderation)
      ∷ ("bedrockGuardrails", pointer_field (encode_bedrock_guardrails x) b.bedrock_guardrails)
      ∷ ("googleModelArmor", pointer_field (encode_google_model_armor x) b.google_model_armor)
      ∷ []

  abbrev pub encode_promptguard_request : PromptguardRequest → Json
  encode_promptguard_request b = object_of (promptguard_request_fields b)

  abbrev pub builders : List (Builder promptguard_request_fields)
  builders =
      pointer_builder promptguard_request_fields "response" (encode_custom_response x)
        with_custom_response
      ∷ pointer_builder promptguard_request_fields "regex" (encode_regex x) with_regex
      ∷ pointer_builder promptguard_request_fields "webhook" (encode_webhook x) with_webhook
      ∷ pointer_builder promptguard_request_fields "openAIModeration" (encode_open_ai_moderation x)
          with_open_ai_moderation
      ∷ pointer_builder promptguard_request_fields "bedrockGuardrails" (encode_bedrock_guardrails x)
          with_bedrock_guardrails
      ∷ pointer_builder promptguard_request_fields "googleModelArmor" (encode_google_model_armor x)
          with_google_model_armor
      ∷ []

  abbrev pub configuration : Configuration
  configuration = record {
    Self = PromptguardRequest;
    fields = promptguard_request_fields;
    empty = promptguard_request;
    builders = builders;
  }

  pub configuration-IsSound : IsSound configuration
  configuration-IsSound = record {
    unset = refl;
    faithful =
        pointer_IsFaithful 0 (λ b. refl) (λ a b. refl)
        ▸ pointer_IsFaithful 1 (λ b. refl) (λ a b. refl)
        ▸ pointer_IsFaithful 2 (λ b. refl) (λ a b. refl)
        ▸ pointer_IsFaithful 3 (λ b. refl) (λ a b. refl)
        ▸ pointer_IsFaithful 4 (λ b. refl) (λ a b. refl)
        ▸ pointer_IsFaithful 5 (λ b. refl) (λ a b. refl)
        ▸ tt;
  }
