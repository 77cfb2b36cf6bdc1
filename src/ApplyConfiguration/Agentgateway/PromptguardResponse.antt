-- ===== src/ApplyConfiguration/Agentgateway/PromptguardResponse.antt =====
-- mycelium/internal/applyconfiguration/v1alpha1/agentgateway/promptguardresponse.go
use agentic_platform.Prelude.{List, Option, [], none, refl, ◌∷◌}
use agentic_platform.ApplyConfiguration.Json.{Fields, Json, object_of, pointer_field}
use agentic_platform.ApplyConfiguration.Foreign.{Foreign}
use agentic_platform.ApplyConfiguration.Builder.{Builder, Configuration, IsSound, ◌▸◌}
use agentic_platform.ApplyConfiguration.Builder.Kinds.{pointer_builder, pointer_IsFaithful}
use agentic_platform.ApplyConfiguration.Agentgateway.BedrockGuardrails.{
  BedrockGuardrails, encode_bedrock_guardrails,
}
use agentic_platform.ApplyConfiguration.Agentgateway.CustomResponse.{
  CustomResponse, encode_custom_response,
}
use agentic_platform.ApplyConfiguration.Agentgateway.GoogleModelArmor.{
  GoogleModelArmor, encode_google_model_armor,
}
use agentic_platform.ApplyConfiguration.Agentgateway.Regex.{Regex, encode_regex}
use agentic_platform.ApplyConfiguration.Agentgateway.Webhook.{Webhook, encode_webhook}

module _ (x : Foreign) where
  pub record PromptguardResponse : Type 0 where
    pub custom_response : Option (CustomResponse x)
    pub regex : Option (Regex x)
    pub webhook : Option (Webhook x)
    pub bedrock_guardrails : Option (BedrockGuardrails x)
    pub google_model_armor : Option (GoogleModelArmor x)

  abbrev pub promptguard_response : PromptguardResponse
  promptguard_response = record {
    custom_response = none;
    regex = none;
    webhook = none;
    bedrock_guardrails = none;
    google_model_armor = none;
  }

  abbrev pub with_custom_response :
      Option (CustomResponse x) → PromptguardResponse → PromptguardResponse
  with_custom_response v b = record b { custom_response = v }

  abbrev pub with_regex : Option (Regex x) → PromptguardResponse → PromptguardResponse
  with_regex v b = record b { regex = v }

  abbrev pub with_webhook : Option (Webhook x) → PromptguardResponse → PromptguardResponse
  with_webhook v b = record b { webhook = v }

  abbrev pub with_bedrock_guardrails :
      Option (BedrockGuardrails x) → PromptguardResponse → PromptguardResponse
  with_bedrock_guardrails v b = record b { bedrock_guardrails = v }

  abbrev pub with_google_model_armor :
      Option (GoogleModelArmor x) → PromptguardResponse → PromptguardResponse
  with_google_model_armor v b = record b { google_model_armor = v }

  abbrev pub promptguard_response_fields : PromptguardResponse → Fields
  promptguard_response_fields b =
      ("response", pointer_field (encode_custom_response x) b.custom_response)
      ∷ ("regex", pointer_field (encode_regex x) b.regex)
      ∷ ("webhook", pointer_field (encode_webhook x) b.webhook)
      ∷ ("bedrockGuardrails", pointer_field (encode_bedrock_guardrails x) b.bedrock_guardrails)
      ∷ ("googleModelArmor", pointer_field (encode_google_model_armor x) b.google_model_armor)
      ∷ []

  abbrev pub encode_promptguard_response : PromptguardResponse → Json
  encode_promptguard_response b = object_of (promptguard_response_fields b)

  abbrev pub builders : List (Builder promptguard_response_fields)
  builders =
      pointer_builder promptguard_response_fields "response" (encode_custom_response x)
        with_custom_response
      ∷ pointer_builder promptguard_response_fields "regex" (encode_regex x) with_regex
      ∷ pointer_builder promptguard_response_fields "webhook" (encode_webhook x) with_webhook
      ∷ pointer_builder promptguard_response_fields "bedrockGuardrails"
          (encode_bedrock_guardrails x) with_bedrock_guardrails
      ∷ pointer_builder promptguard_response_fields "googleModelArmor" (encode_google_model_armor x)
          with_google_model_armor
      ∷ []

  abbrev pub configuration : Configuration
  configuration = record {
    Self = PromptguardResponse;
    fields = promptguard_response_fields;
    empty = promptguard_response;
    builders = builders;
  }

  pub configuration-IsSound : IsSound configuration
  configuration-IsSound = record {
    unset = refl;
    faithful =
        pointer_IsFaithful 0 (λ b. refl) (λ a b. refl)
        ▸ pointer_IsFaithful 1 (λ b. refl) (λ a b. refl)
        ▸ pointer_IsFaithful 2 (λ b. refl) (λ a b. refl)
        ▸ pointer_IsFaithful 3 (λ b. refl) (λ a b. refl)
        ▸ pointer_IsFaithful 4 (λ b. refl) (λ a b. refl)
        ▸ tt;
  }
