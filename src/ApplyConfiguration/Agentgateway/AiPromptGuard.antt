-- ===== src/ApplyConfiguration/Agentgateway/AiPromptGuard.antt =====
-- mycelium/internal/applyconfiguration/v1alpha1/agentgateway/aipromptguard.go
use agentic_platform.Prelude.{List, Option, [], refl, ◌∷◌}
use agentic_platform.ApplyConfiguration.{Outcome, map_outcome}
use agentic_platform.ApplyConfiguration.Appends.{append_pointers}
use agentic_platform.ApplyConfiguration.Json.{Fields, Json, object_of, slice_field}
use agentic_platform.ApplyConfiguration.Foreign.{Foreign}
use agentic_platform.ApplyConfiguration.Builder.{Builder, Configuration, IsSound, ◌▸◌}
use agentic_platform.ApplyConfiguration.Builder.Kinds.{pointers_builder, pointers_IsFaithful}
use agentic_platform.ApplyConfiguration.Agentgateway.PromptguardRequest.{
  PromptguardRequest, encode_promptguard_request,
}
use agentic_platform.ApplyConfiguration.Agentgateway.PromptguardResponse.{
  PromptguardResponse, encode_promptguard_response,
}

module _ (x : Foreign) where
  pub record AiPromptGuard : Type 0 where
    pub request : List (PromptguardRequest x)
    pub response : List (PromptguardResponse x)

  abbrev pub ai_prompt_guard : AiPromptGuard
  ai_prompt_guard = record { request = []; response = [] }

  abbrev pub with_request :
      List (Option (PromptguardRequest x)) → AiPromptGuard → Outcome AiPromptGuard
  with_request values b =
      map_outcome (λ xs. record b { request = xs }) (append_pointers "WithRequest" values b.request)

  abbrev pub with_response :
      List (Option (PromptguardResponse x)) → AiPromptGuard → Outcome AiPromptGuard
  with_response values b =
      map_outcome (λ xs. record b { response = xs })
        (append_pointers "WithResponse" values b.response)

  abbrev pub ai_prompt_guard_fields : AiPromptGuard → Fields
  ai_prompt_guard_fields b =
      ("request", slice_field (encode_promptguard_request x) b.request)
      ∷ ("response", slice_field (encode_promptguard_response x) b.response)
      ∷ []

  abbrev pub encode_ai_prompt_guard : AiPromptGuard → Json
  encode_ai_prompt_guard b = object_of (ai_prompt_guard_fields b)

  abbrev pub builders : List (Builder ai_prompt_guard_fields)
  builders =
      pointers_builder ai_prompt_guard_fields "request" (encode_promptguard_request x) "WithRequest"
        with_request
      ∷ pointers_builder ai_prompt_guard_fields "response" (encode_promptguard_response x)
          "WithResponse" with_response
      ∷ []

  abbrev pub configuration : Configuration
  configuration = record {
    Self = AiPromptGuard;
    fields = ai_prompt_guard_fields;
    empty = ai_prompt_guard;
    builders = builders;
  }

  pub configuration-IsSound : IsSound configuration
  configuration-IsSound = record {
    unset = refl;
    faithful =
        pointers_IsFaithful 0 (λ b. refl) (λ b. b.request) (λ xs b. record b { request = xs })
          (λ xs b. refl) (λ b. refl) "WithRequest" (λ a b. refl)
        ▸ pointers_IsFaithful 1 (λ b. refl) (λ b. b.response) (λ xs b. record b { response = xs })
            (λ xs b. refl) (λ b. refl) "WithResponse" (λ a b. refl)
        ▸ tt;
  }
