-- ===== src/ApplyConfiguration/Agentgateway/Traffic.antt =====
-- mycelium/internal/applyconfiguration/v1alpha1/agentgateway/traffic.go
use agentic_platform.Prelude.{List, Option, [], none, refl, some, ◌∷◌}
use agentic_platform.ApplyConfiguration.Json.{Fields, Json, object_of, pointer_field}
use agentic_platform.ApplyConfiguration.Foreign.{Foreign}
use agentic_platform.ApplyConfiguration.Builder.{Builder, Configuration, IsSound, ◌▸◌}
use agentic_platform.ApplyConfiguration.Builder.Kinds.{
  pointer_builder, pointer_IsFaithful, value_builder, value_IsFaithful,
}
use agentic_platform.ApplyConfiguration.Agentgateway.ApiKeyAuthentication.{
  ApiKeyAuthentication, encode_api_key_authentication,
}
use agentic_platform.ApplyConfiguration.Agentgateway.BasicAuthentication.{
  BasicAuthentication, encode_basic_authentication,
}
use agentic_platform.ApplyConfiguration.Agentgateway.Cors.{Cors, encode_cors}
use agentic_platform.ApplyConfiguration.Agentgateway.Csrf.{Csrf, encode_csrf}
use agentic_platform.ApplyConfiguration.Agentgateway.DirectResponse.{
  DirectResponse, encode_direct_response,
}
use agentic_platform.ApplyConfiguration.Agentgateway.ExtAuth.{ExtAuth, encode_ext_auth}
use agentic_platform.ApplyConfiguration.Agentgateway.ExtProc.{ExtProc, encode_ext_proc}
use agentic_platform.ApplyConfiguration.Agentgateway.HostnameRewrite.{
  HostnameRewrite, encode_hostname_rewrite,
}
use agentic_platform.ApplyConfiguration.Agentgateway.JwtAuthentication.{
  JwtAuthentication, encode_jwt_authentication,
}
use agentic_platform.ApplyConfiguration.Agentgateway.RateLimits.{RateLimits, encode_rate_limits}
use agentic_platform.ApplyConfiguration.Agentgateway.Retry.{Retry, encode_retry}
use agentic_platform.ApplyConfiguration.Agentgateway.Timeouts.{Timeouts, encode_timeouts}
use agentic_platform.ApplyConfiguration.Agentgateway.Transformation.{
  Transformation, encode_transformation,
}

module _ (x : Foreign) where
  pub record Traffic : Type 0 where
    pub phase : Option x.policy_phase.Carrier
    pub transformation : Option (Transformation x)
    pub ext_proc : Option (ExtProc x)
    pub ext_auth : Option (ExtAuth x)
    pub rate_limit : Option (RateLimits x)
    pub cors : Option (Cors x)
    pub csrf : Option (Csrf x)
    pub header_modifiers : Option x.header_modifiers.Carrier
    pub hostname_rewrite : Option (HostnameRewrite x)
    pub timeouts : Option (Timeouts x)
    pub retry : Option (Retry x)
    pub authorization : Option x.authorization.Carrier
    pub jwt_authentication : Option (JwtAuthentication x)
    pub basic_authentication : Option (BasicAuthentication x)
    pub api_key_authentication : Option (ApiKeyAuthentication x)
    pub direct_response : Option (DirectResponse x)

  abbrev pub traffic : Traffic
  traffic = record {
    phase = none;
    transformation = none;
    ext_proc = none;
    ext_auth = none;
    rate_limit = none;
    cors = none;
    csrf = none;
    header_modifiers = none;
    hostname_rewrite = none;
    timeouts = none;
    retry = none;
    authorization = none;
    jwt_authentication = none;
    basic_authentication = none;
    api_key_authentication = none;
    direct_response = none;
  }

  abbrev pub with_phase : x.policy_phase.Carrier → Traffic → Traffic
  with_phase v b = record b { phase = some v }

  abbrev pub with_transformation : Option (Transformation x) → Traffic → Traffic
  with_transformation v b = record b { transformation = v }

  abbrev pub with_ext_proc : Option (ExtProc x) → Traffic → Traffic
  with_ext_proc v b = record b { ext_proc = v }

  abbrev pub with_ext_auth : Option (ExtAuth x) → Traffic → Traffic
  with_ext_auth v b = record b { ext_auth = v }

  abbrev pub with_rate_limit : Option (RateLimits x) → Traffic → Traffic
  with_rate_limit v b = record b { rate_limit = v }

  abbrev pub with_cors : Option (Cors x) → Traffic → Traffic
  with_cors v b = record b { cors = v }

  abbrev pub with_csrf : Option (Csrf x) → Traffic → Traffic
  with_csrf v b = record b { csrf = v }

  abbrev pub with_header_modifiers : x.header_modifiers.Carrier → Traffic → Traffic
  with_header_modifiers v b = record b { header_modifiers = some v }

  abbrev pub with_hostname_rewrite : Option (HostnameRewrite x) → Traffic → Traffic
  with_hostname_rewrite v b = record b { hostname_rewrite = v }

  abbrev pub with_timeouts : Option (Timeouts x) → Traffic → Traffic
  with_timeouts v b = record b { timeouts = v }

  abbrev pub with_retry : Option (Retry x) → Traffic → Traffic
  with_retry v b = record b { retry = v }

  abbrev pub with_authorization : x.authorization.Carrier → Traffic → Traffic
  with_authorization v b = record b { authorization = some v }

  abbrev pub with_jwt_authentication : Option (JwtAuthentication x) → Traffic → Traffic
  with_jwt_authentication v b = record b { jwt_authentication = v }

  abbrev pub with_basic_authentication : Option (BasicAuthentication x) → Traffic → Traffic
  with_basic_authentication v b = record b { basic_authentication = v }

  abbrev pub with_api_key_authentication : Option (ApiKeyAuthentication x) → Traffic → Traffic
  with_api_key_authentication v b = record b { api_key_authentication = v }

  abbrev pub with_direct_response : Option (DirectResponse x) → Traffic → Traffic
  with_direct_response v b = record b { direct_response = v }

  abbrev pub traffic_fields : Traffic → Fields
  traffic_fields b =
      ("phase", pointer_field x.policy_phase.encode b.phase)
      ∷ ("transformation", pointer_field (encode_transformation x) b.transformation)
      ∷ ("extProc", pointer_field (encode_ext_proc x) b.ext_proc)
      ∷ ("extAuth", pointer_field (encode_ext_auth x) b.ext_auth)
      ∷ ("rateLimit", pointer_field (encode_rate_limits x) b.rate_limit)
      ∷ ("cors", pointer_field (encode_cors x) b.cors)
      ∷ ("csrf", pointer_field (encode_csrf x) b.csrf)
      ∷ ("headerModifiers", pointer_field x.header_modifiers.encode b.header_modifiers)
      ∷ ("hostRewrite", pointer_field (encode_hostname_rewrite x) b.hostname_rewrite)
      ∷ ("timeouts", pointer_field (encode_timeouts x) b.timeouts)
      ∷ ("retry", pointer_field (encode_retry x) b.retry)
      ∷ ("authorization", pointer_field x.authorization.encode b.authorization)
      ∷ ("jwtAuthentication", pointer_field (encode_jwt_authentication x) b.jwt_authentication)
      ∷ (
        "basicAuthentication",
        pointer_field (encode_basic_authentication x) b.basic_authentication,
      )
      ∷ (
        "apiKeyAuthentication",
        pointer_field (encode_api_key_authentication x) b.api_key_authentication,
      )
      ∷ ("directResponse", pointer_field (encode_direct_response x) b.direct_response)
      ∷ []

  abbrev pub encode_traffic : Traffic → Json
  encode_traffic b = object_of (traffic_fields b)

  abbrev pub builders : List (Builder traffic_fields)
  builders =
      value_builder traffic_fields "phase" x.policy_phase.encode with_phase
      ∷ pointer_builder traffic_fields "transformation" (encode_transformation x)
          with_transformation
      ∷ pointer_builder traffic_fields "extProc" (encode_ext_proc x) with_ext_proc
      ∷ pointer_builder traffic_fields "extAuth" (encode_ext_auth x) with_ext_auth
      ∷ pointer_builder traffic_fields "rateLimit" (encode_rate_limits x) with_rate_limit
      ∷ pointer_builder traffic_fields "cors" (encode_cors x) with_cors
      ∷ pointer_builder traffic_fields "csrf" (encode_csrf x) with_csrf
      ∷ value_builder traffic_fields "headerModifiers" x.header_modifiers.encode
          with_header_modifiers
      ∷ pointer_builder traffic_fields "hostRewrite" (encode_hostname_rewrite x)
          with_hostname_rewrite
      ∷ pointer_builder traffic_fields "timeouts" (encode_timeouts x) with_timeouts
      ∷ pointer_builder traffic_fields "retry" (encode_retry x) with_retry
      ∷ value_builder traffic_fields "authorization" x.authorization.encode with_authorization
      ∷ pointer_builder traffic_fields "jwtAuthentication" (encode_jwt_authentication x)
          with_jwt_authentication
      ∷ pointer_builder traffic_fields "basicAuthentication" (encode_basic_authentication x)
          with_basic_authentication
      ∷ pointer_builder traffic_fields "apiKeyAuthentication" (encode_api_key_authentication x)
          with_api_key_authentication
      ∷ pointer_builder traffic_fields "directResponse" (encode_direct_response x)
          with_direct_response
      ∷ []

  abbrev pub configuration : Configuration
  configuration = record {
    Self = Traffic;
    fields = traffic_fields;
    empty = traffic;
    builders = builders;
  }

  pub configuration-IsSound : IsSound configuration
  configuration-IsSound = record {
    unset = refl;
    faithful =
        value_IsFaithful 0 (λ b. refl) (λ a b. refl)
        ▸ pointer_IsFaithful 1 (λ b. refl) (λ a b. refl)
        ▸ pointer_IsFaithful 2 (λ b. refl) (λ a b. refl)
        ▸ pointer_IsFaithful 3 (λ b. refl) (λ a b. refl)
        ▸ pointer_IsFaithful 4 (λ b. refl) (λ a b. refl)
        ▸ pointer_IsFaithful 5 (λ b. refl) (λ a b. refl)
        ▸ pointer_IsFaithful 6 (λ b. refl) (λ a b. refl)
        ▸ value_IsFaithful 7 (λ b. refl) (λ a b. refl)
        ▸ pointer_IsFaithful 8 (λ b. refl) (λ a b. refl)
        ▸ pointer_IsFaithful 9 (λ b. refl) (λ a b. refl)
        ▸ pointer_IsFaithful 10 (λ b. refl) (λ a b. refl)
        ▸ value_IsFaithful 11 (λ b. refl) (λ a b. refl)
        ▸ pointer_IsFaithful 12 (λ b. refl) (λ a b. refl)
        ▸ pointer_IsFaithful 13 (λ b. refl) (λ a b. refl)
        ▸ pointer_IsFaithful 14 (λ b. refl) (λ a b. refl)
        ▸ pointer_IsFaithful 15 (λ b. refl) (λ a b. refl)
        ▸ tt;
  }
