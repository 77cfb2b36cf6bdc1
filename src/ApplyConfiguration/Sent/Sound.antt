-- ===== src/ApplyConfiguration/Sent/Sound.antt =====
-- The proofs that go with the table of configurations.
use agentic_platform.Prelude.{All}
use agentic_platform.ApplyConfiguration.Agentgateway
use agentic_platform.ApplyConfiguration.Foreign.{Foreign}
use agentic_platform.ApplyConfiguration.Builder.{IsSound, ◌▸◌}
use agentic_platform.ApplyConfiguration.Sent.{configurations}

pub configurations-IsSound : (x : Foreign) → All (λ c. IsSound c.1) (configurations x)
configurations-IsSound x =
    Agentgateway.AccessLog.configuration-IsSound x
    ▸ Agentgateway.AgentExtAuthGrpc.configuration-IsSound x
    ▸ Agentgateway.AgentExtAuthHttp.configuration-IsSound x
    ▸ Agentgateway.AgentgatewayBackend.configuration-IsSound x
    ▸ Agentgateway.AgentgatewayBackendSpec.configuration-IsSound x
    ▸ Agentgateway.AgentgatewayBackendStatus.configuration-IsSound x
    ▸ Agentgateway.AgentgatewayParameters.configuration-IsSound x
    ▸ Agentgateway.AgentgatewayParametersConfigs.configuration-IsSound x
    ▸ Agentgateway.AgentgatewayParametersLogging.configuration-IsSound x
    ▸ Agentgateway.AgentgatewayParametersOverlays.configuration-IsSound x
    ▸ Agentgateway.AgentgatewayParametersSpec.configuration-IsSound x
    ▸ Agentgateway.AgentgatewayPolicy.configuration-IsSound x
    ▸ Agentgateway.AgentgatewayPolicySpec.configuration-IsSound x
    ▸ Agentgateway.AiBackend.configuration-IsSound x
    ▸ Agentgateway.AiPromptEnrichment.configuration-IsSound x
    ▸ Agentgateway.AiPromptGuard.configuration-IsSound x
    ▸ Agentgateway.AnthropicConfig.configuration-IsSound x
    ▸ Agentgateway.ApiKeyAuthentication.configuration-IsSound x
    ▸ Agentgateway.AttributeAdd.configuration-IsSound x
    ▸ Agentgateway.AwsAgentCoreBackend.configuration-IsSound x
    ▸ Agentgateway.AwsAuth.configuration-IsSound x
    ▸ Agentgateway.AwsBackend.configuration-IsSound x
    ▸ Agentgateway.AwsGuardrailConfig.configuration-IsSound x
    ▸ Agentgateway.AzureAuth.configuration-IsSound x
    ▸ Agentgateway.AzureConfig.configuration-IsSound x
    ▸ Agentgateway.AzureManagedIdentity.configuration-IsSound x
    ▸ Agentgateway.AzureOpenAiConfig.configuration-IsSound x
    ▸ Agentgateway.BackendAi.configuration-IsSound x
    ▸ Agentgateway.BackendAuth.configuration-IsSound x
    ▸ Agentgateway.BackendEviction.configuration-IsSound x
    ▸ Agentgateway.BackendFull.configuration-IsSound x
    ▸ Agentgateway.BackendHttp.configuration-IsSound x
    ▸ Agentgateway.BackendMcp.configuration-IsSound x
    ▸ Agentgateway.BackendSimple.configuration-IsSound x
    ▸ Agentgateway.BackendTcp.configuration-IsSound x
    ▸ Agentgateway.BackendTls.configuration-IsSound x
    ▸ Agentgateway.BackendTunnel.configuration-IsSound x
    ▸ Agentgateway.BackendWithAi.configuration-IsSound x
    ▸ Agentgateway.BasicAuthentication.configuration-IsSound x
    ▸ Agentgateway.BedrockConfig.configuration-IsSound x
    ▸ Agentgateway.BedrockGuardrails.configuration-IsSound x
    ▸ Agentgateway.Cors.configuration-IsSound x
    ▸ Agentgateway.Csrf.configuration-IsSound x
    ▸ Agentgateway.CustomResponse.configuration-IsSound x
    ▸ Agentgateway.DirectResponse.configuration-IsSound x
    ▸ Agentgateway.ExtAuth.configuration-IsSound x
    ▸ Agentgateway.ExtAuthBody.configuration-IsSound x
    ▸ Agentgateway.ExtProc.configuration-IsSound x
    ▸ Agentgateway.FieldDefault.configuration-IsSound x
    ▸ Agentgateway.FieldTransformation.configuration-IsSound x
    ▸ Agentgateway.Frontend.configuration-IsSound x
    ▸ Agentgateway.FrontendHttp.configuration-IsSound x
    ▸ Agentgateway.FrontendTcp.configuration-IsSound x
    ▸ Agentgateway.FrontendTls.configuration-IsSound x
    ▸ Agentgateway.GcpAuth.configuration-IsSound x
    ▸ Agentgateway.GeminiConfig.configuration-IsSound x
    ▸ Agentgateway.GlobalRateLimit.configuration-IsSound x
    ▸ Agentgateway.GoogleModelArmor.configuration-IsSound x
    ▸ Agentgateway.HeaderTransformation.configuration-IsSound x
    ▸ Agentgateway.Health.configuration-IsSound x
    ▸ Agentgateway.HostnameRewrite.configuration-IsSound x
    ▸ Agentgateway.Image.configuration-IsSound x
    ▸ Agentgateway.IstioSpec.configuration-IsSound x
    ▸ Agentgateway.Jwks.configuration-IsSound x
    ▸ Agentgateway.JwtAuthentication.configuration-IsSound x
    ▸ Agentgateway.JwtMcpConfig.configuration-IsSound x
    ▸ Agentgateway.JwtProvider.configuration-IsSound x
    ▸ Agentgateway.Keepalive.configuration-IsSound x
    ▸ Agentgateway.LlmProvider.configuration-IsSound x
    ▸ Agentgateway.LocalRateLimit.configuration-IsSound x
    ▸ Agentgateway.LogTracingAttributes.configuration-IsSound x
    ▸ Agentgateway.McpAuthentication.configuration-IsSound x
    ▸ Agentgateway.McpBackend.configuration-IsSound x
    ▸ Agentgateway.McpSelector.configuration-IsSound x
    ▸ Agentgateway.McpTarget.configuration-IsSound x
    ▸ Agentgateway.McpTargetSelector.configuration-IsSound x
    ▸ Agentgateway.Message.configuration-IsSound x
    ▸ Agentgateway.NamedLlmProvider.configuration-IsSound x
    ▸ Agentgateway.OpenAiConfig.configuration-IsSound x
    ▸ Agentgateway.OpenAiModeration.configuration-IsSound x
    ▸ Agentgateway.OtlpAccessLog.configuration-IsSound x
    ▸ Agentgateway.PriorityGroup.configuration-IsSound x
    ▸ Agentgateway.PromptCachingConfig.configuration-IsSound x
    ▸ Agentgateway.PromptguardRequest.configuration-IsSound x
    ▸ Agentgateway.PromptguardResponse.configuration-IsSound x
    ▸ Agentgateway.RateLimitDescriptor.configuration-IsSound x
    ▸ Agentgateway.RateLimitDescriptorEntry.configuration-IsSound x
    ▸ Agentgateway.RateLimits.configuration-IsSound x
    ▸ Agentgateway.Regex.configuration-IsSound x
    ▸ Agentgateway.RemoteJwks.configuration-IsSound x
    ▸ Agentgateway.ResourceAdd.configuration-IsSound x
    ▸ Agentgateway.Retry.configuration-IsSound x
    ▸ Agentgateway.SecretSelector.configuration-IsSound x
    ▸ Agentgateway.ShutdownSpec.configuration-IsSound x
    ▸ Agentgateway.StaticBackend.configuration-IsSound x
    ▸ Agentgateway.Timeouts.configuration-IsSound x
    ▸ Agentgateway.Tracing.configuration-IsSound x
    ▸ Agentgateway.Traffic.configuration-IsSound x
    ▸ Agentgateway.Transform.configuration-IsSound x
    ▸ Agentgateway.Transformation.configuration-IsSound x
    ▸ Agentgateway.VertexAiConfig.configuration-IsSound x
    ▸ Agentgateway.Webhook.configuration-IsSound x
    ▸ tt
