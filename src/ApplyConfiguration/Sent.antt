-- ===== src/ApplyConfiguration/Sent.antt =====
-- All configurations of mycelium/internal/applyconfiguration/v1alpha1/agentgateway, by the names of
-- their Go types, and what a chain of calls on one sends.
pub mod Sound
pub mod Effects
use agentic_platform.Prelude.{String, Option, List, [], ◌∷◌}
use agentic_platform.ApplyConfiguration.Agentgateway
use agentic_platform.ApplyConfiguration.Foreign.{Foreign}
use agentic_platform.ApplyConfiguration.Builder.{Configuration}
use agentic_platform.ApplyConfiguration.Kinds.{find}

module _ (x : Foreign) where
  abbrev pub configurations : List (String × Configuration)
  configurations =
      ("AccessLogApplyConfiguration", Agentgateway.AccessLog.configuration x)
      ∷ ("AgentExtAuthGRPCApplyConfiguration", Agentgateway.AgentExtAuthGrpc.configuration x)
      ∷ ("AgentExtAuthHTTPApplyConfiguration", Agentgateway.AgentExtAuthHttp.configuration x)
      ∷ ("AgentgatewayBackendApplyConfiguration", Agentgateway.AgentgatewayBackend.configuration x)
      ∷ (
        "AgentgatewayBackendSpecApplyConfiguration",
        Agentgateway.AgentgatewayBackendSpec.configuration x,
      )
      ∷ (
        "AgentgatewayBackendStatusApplyConfiguration",
        Agentgateway.AgentgatewayBackendStatus.configuration x,
      )
      ∷ (
        "AgentgatewayParametersApplyConfiguration",
        Agentgateway.AgentgatewayParameters.configuration x,
      )
      ∷ (
        "AgentgatewayParametersConfigsApplyConfiguration",
        Agentgateway.AgentgatewayParametersConfigs.configuration x,
      )
      ∷ (
        "AgentgatewayParametersLoggingApplyConfiguration",
        Agentgateway.AgentgatewayParametersLogging.configuration x,
      )
      ∷ (
        "AgentgatewayParametersOverlaysApplyConfiguration",
        Agentgateway.AgentgatewayParametersOverlays.configuration x,
      )
      ∷ (
        "AgentgatewayParametersSpecApplyConfiguration",
        Agentgateway.AgentgatewayParametersSpec.configuration x,
      )
      ∷ ("AgentgatewayPolicyApplyConfiguration", Agentgateway.AgentgatewayPolicy.configuration x)
      ∷ (
        "AgentgatewayPolicySpecApplyConfiguration",
        Agentgateway.AgentgatewayPolicySpec.configuration x,
      )
      ∷ ("AIBackendApplyConfiguration", Agentgateway.AiBackend.configuration x)
      ∷ ("AIPromptEnrichmentApplyConfiguration", Agentgateway.AiPromptEnrichment.configuration x)
      ∷ ("AIPromptGuardApplyConfiguration", Agentgateway.AiPromptGuard.configuration x)
      ∷ ("AnthropicConfigApplyConfiguration", Agentgateway.AnthropicConfig.configuration x)
      ∷ (
        "APIKeyAuthenticationApplyConfiguration",
        Agentgateway.ApiKeyAuthentication.configuration x,
      )
      ∷ ("AttributeAddApplyConfiguration", Agentgateway.AttributeAdd.configuration x)
      ∷ ("AwsAgentCoreBackendApplyConfiguration", Agentgateway.AwsAgentCoreBackend.configuration x)
      ∷ ("AwsAuthApplyConfiguration", Agentgateway.AwsAuth.configuration x)
      ∷ ("AwsBackendApplyConfiguration", Agentgateway.AwsBackend.configuration x)
      ∷ ("AWSGuardrailConfigApplyConfiguration", Agentgateway.AwsGuardrailConfig.configuration x)
      ∷ ("AzureAuthApplyConfiguration", Agentgateway.AzureAuth.configuration x)
      ∷ ("AzureConfigApplyConfiguration", Agentgateway.AzureConfig.configuration x)
      ∷ (
        "AzureManagedIdentityApplyConfiguration",
        Agentgateway.AzureManagedIdentity.configuration x,
      )
      ∷ ("AzureOpenAIConfigApplyConfiguration", Agentgateway.AzureOpenAiConfig.configuration x)
      ∷ ("BackendAIApplyConfiguration", Agentgateway.BackendAi.configuration x)
      ∷ ("BackendAuthApplyConfiguration", Agentgateway.BackendAuth.configuration x)
      ∷ ("BackendEvictionApplyConfiguration", Agentgateway.BackendEviction.configuration x)
      ∷ ("BackendFullApplyConfiguration", Agentgateway.BackendFull.configuration x)
      ∷ ("BackendHTTPApplyConfiguration", Agentgateway.BackendHttp.configuration x)
      ∷ ("BackendMCPApplyConfiguration", Agentgateway.BackendMcp.configuration x)
      ∷ ("BackendSimpleApplyConfiguration", Agentgateway.BackendSimple.configuration x)
      ∷ ("BackendTCPApplyConfiguration", Agentgateway.BackendTcp.configuration x)
      ∷ ("BackendTLSApplyConfiguration", Agentgateway.BackendTls.configuration x)
      ∷ ("BackendTunnelApplyConfiguration", Agentgateway.BackendTunnel.configuration x)
      ∷ ("BackendWithAIApplyConfiguration", Agentgateway.BackendWithAi.configuration x)
      ∷ ("BasicAuthenticationApplyConfiguration", Agentgateway.BasicAuthentication.configuration x)
      ∷ ("BedrockConfigApplyConfiguration", Agentgateway.BedrockConfig.configuration x)
      ∷ ("BedrockGuardrailsApplyConfiguration", Agentgateway.BedrockGuardrails.configuration x)
      ∷ ("CORSApplyConfiguration", Agentgateway.Cors.configuration x)
      ∷ ("CSRFApplyConfiguration", Agentgateway.Csrf.configuration x)
      ∷ ("CustomResponseApplyConfiguration", Agentgateway.CustomResponse.configuration x)
      ∷ ("DirectResponseApplyConfiguration", Agentgateway.DirectResponse.configuration x)
      ∷ ("ExtAuthApplyConfiguration", Agentgateway.ExtAuth.configuration x)
      ∷ ("ExtAuthBodyApplyConfiguration", Agentgateway.ExtAuthBody.configuration x)
      ∷ ("ExtProcApplyConfiguration", Agentgateway.ExtProc.configuration x)
      ∷ ("FieldDefaultApplyConfiguration", Agentgateway.FieldDefault.configuration x)
      ∷ ("FieldTransformationApplyConfiguration", Agentgateway.FieldTransformation.configuration x)
      ∷ ("FrontendApplyConfiguration", Agentgateway.Frontend.configuration x)
      ∷ ("FrontendHTTPApplyConfiguration", Agentgateway.FrontendHttp.configuration x)
      ∷ ("FrontendTCPApplyConfiguration", Agentgateway.FrontendTcp.configuration x)
      ∷ ("FrontendTLSApplyConfiguration", Agentgateway.FrontendTls.configuration x)
      ∷ ("GcpAuthApplyConfiguration", Agentgateway.GcpAuth.configuration x)
      ∷ ("GeminiConfigApplyConfiguration", Agentgateway.GeminiConfig.configuration x)
      ∷ ("GlobalRateLimitApplyConfiguration", Agentgateway.GlobalRateLimit.configuration x)
      ∷ ("GoogleModelArmorApplyConfiguration", Agentgateway.GoogleModelArmor.configuration x)
      ∷ (
        "HeaderTransformationApplyConfiguration",
        Agentgateway.HeaderTransformation.configuration x,
      )
      ∷ ("HealthApplyConfiguration", Agentgateway.Health.configuration x)
      ∷ ("HostnameRewriteApplyConfiguration", Agentgateway.HostnameRewrite.configuration x)
      ∷ ("ImageApplyConfiguration", Agentgateway.Image.configuration x)
      ∷ ("IstioSpecApplyConfiguration", Agentgateway.IstioSpec.configuration x)
      ∷ ("JWKSApplyConfiguration", Agentgateway.Jwks.configuration x)
      ∷ ("JWTAuthenticationApplyConfiguration", Agentgateway.JwtAuthentication.configuration x)
      ∷ ("JWTMCPConfigApplyConfiguration", Agentgateway.JwtMcpConfig.configuration x)
      ∷ ("JWTProviderApplyConfiguration", Agentgateway.JwtProvider.configuration x)
      ∷ ("KeepaliveApplyConfiguration", Agentgateway.Keepalive.configuration x)
      ∷ ("LLMProviderApplyConfiguration", Agentgateway.LlmProvider.configuration x)
      ∷ ("LocalRateLimitApplyConfiguration", Agentgateway.LocalRateLimit.configuration x)
      ∷ (
        "LogTracingAttributesApplyConfiguration",
        Agentgateway.LogTracingAttributes.configuration x,
      )
      ∷ ("MCPAuthenticationApplyConfiguration", Agentgateway.McpAuthentication.configuration x)
      ∷ ("MCPBackendApplyConfiguration", Agentgateway.McpBackend.configuration x)
      ∷ ("McpSelectorApplyConfiguration", Agentgateway.McpSelector.configuration x)
      ∷ ("McpTargetApplyConfiguration", Agentgateway.McpTarget.configuration x)
      ∷ ("McpTargetSelectorApplyConfiguration", Agentgateway.McpTargetSelector.configuration x)
      ∷ ("MessageApplyConfiguration", Agentgateway.Message.configuration x)
      ∷ ("NamedLLMProviderApplyConfiguration", Agentgateway.NamedLlmProvider.configuration x)
      ∷ ("OpenAIConfigApplyConfiguration", Agentgateway.OpenAiConfig.configuration x)
      ∷ ("OpenAIModerationApplyConfiguration", Agentgateway.OpenAiModeration.configuration x)
      ∷ ("OtlpAccessLogApplyConfiguration", Agentgateway.OtlpAccessLog.configuration x)
      ∷ ("PriorityGroupApplyConfiguration", Agentgateway.PriorityGroup.configuration x)
      ∷ ("PromptCachingConfigApplyConfiguration", Agentgateway.PromptCachingConfig.configuration x)
      ∷ ("PromptguardRequestApplyConfiguration", Agentgateway.PromptguardRequest.configuration x)
      ∷ ("PromptguardResponseApplyConfiguration", Agentgateway.PromptguardResponse.configuration x)
      ∷ ("RateLimitDescriptorApplyConfiguration", Agentgateway.RateLimitDescriptor.configuration x)
      ∷ (
        "RateLimitDescriptorEntryApplyConfiguration",
        Agentgateway.RateLimitDescriptorEntry.configuration x,
      )
      ∷ ("RateLimitsApplyConfiguration", Agentgateway.RateLimits.configuration x)
      ∷ ("RegexApplyConfiguration", Agentgateway.Regex.configuration x)
      ∷ ("RemoteJWKSApplyConfiguration", Agentgateway.RemoteJwks.configuration x)
      ∷ ("ResourceAddApplyConfiguration", Agentgateway.ResourceAdd.configuration x)
      ∷ ("RetryApplyConfiguration", Agentgateway.Retry.configuration x)
      ∷ ("SecretSelectorApplyConfiguration", Agentgateway.SecretSelector.configuration x)
      ∷ ("ShutdownSpecApplyConfiguration", Agentgateway.ShutdownSpec.configuration x)
      ∷ ("StaticBackendApplyConfiguration", Agentgateway.StaticBackend.configuration x)
      ∷ ("TimeoutsApplyConfiguration", Agentgateway.Timeouts.configuration x)
      ∷ ("TracingApplyConfiguration", Agentgateway.Tracing.configuration x)
      ∷ ("TrafficApplyConfiguration", Agentgateway.Traffic.configuration x)
      ∷ ("TransformApplyConfiguration", Agentgateway.Transform.configuration x)
      ∷ ("TransformationApplyConfiguration", Agentgateway.Transformation.configuration x)
      ∷ ("VertexAIConfigApplyConfiguration", Agentgateway.VertexAiConfig.configuration x)
      ∷ ("WebhookApplyConfiguration", Agentgateway.Webhook.configuration x)
      ∷ []

  abbrev pub configuration_named : String → Option Configuration
  configuration_named name = find configurations name
