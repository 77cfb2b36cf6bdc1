-- ===== src/Tests/Copying.antt =====
-- Deep copies of concrete resources.
use agentic_platform.Prelude.{arith, ℕ, refl, Option, none, some, [], ◌∷◌}
use agentic_platform.Prelude.Int.{pos}
use agentic_platform.Memory.{Ref, Pointer, pointer}
use agentic_platform.Memory.Copies.{CopyOf, Apart, Isolated}
use agentic_platform.Api.Status.{BaseMyceliumResourceStatus, ReferencedResourceStatus}
use agentic_platform.Api.Agent.{MyceliumAgent, MyceliumAgentList, agent_located}
use agentic_platform.Api.Agent.DeepCopy.{deep_copy_into_agent, deep_copy_agent_list}
use agentic_platform.Api.Agent.Lists.{own_list_located, deep_copy_agent_list-Isolated}
use agentic_platform.Api.Agent.Sharing.{
  AgentCopy, deep_copy_into_agent-AgentCopy, deep_copy_into_agent-shares,
  deep_copy_into_agent-CopyOf,
}
use agentic_platform.Api.Tool.{MyceliumTool, MyceliumToolList, tool_list_located}
use agentic_platform.Api.Tool.DeepCopy.{deep_copy_tool_list}
use agentic_platform.Api.Ecosystem.{MyceliumEcosystem, MyceliumEcosystemList}
use agentic_platform.Api.Authorizer.{MyceliumAuthorizer, MyceliumAuthorizerList}
use agentic_platform.Api.CredentialProvider.{
  MyceliumCredentialProvider, MyceliumCredentialProviderList,
}
use agentic_platform.Api.Isolation.{deep_copy_tool_list-Isolated}
use agentic_platform.Tests.Samples.{Meta, machinery}

abbrev at : {A : Type 0} → ℕ → A → Option (Ref A)
at a c = some (record { addr = a; content = c })

abbrev sample_meta : Meta
sample_meta = record { name = "search"; namespace = "alpha"; uid = "u1"; deletion = none }

abbrev base : BaseMyceliumResourceStatus machinery
base = record { observed_generation = pos 3; conditions = at 4 ("Ready" ∷ []) }

abbrev no_reference : ReferencedResourceStatus machinery
no_reference = record { resource_ref = none; conditions = none }

abbrev agent : ReferencedResourceStatus machinery → MyceliumAgent machinery
agent service_account = record {
  type_meta = "Agent";
  object_meta = sample_meta;
  spec = record {
    description = "finds documents";
    tool_bindings = at 1 (
        record {
          tool_ref = record { name = "list-repos" };
          rate_limit = at 2 (record { unit = "minute"; requests_per_unit = pos 5 });
        }
        ∷ []);
    sandbox_pool = record { image = "agent:1"; shutdown_timeout = "30m"; replicas = at 3 (pos 1) };
  };
  status = record { base = base; tool_bindings = none; service_account = service_account };
}

abbrev referenced : ReferencedResourceStatus machinery
referenced = record { resource_ref = at 5 "search"; conditions = at 6 ("Ready" ∷ []) }

deep_copy_into_agent-AgentCopy_example :
    AgentCopy machinery (agent referenced) 50 (deep_copy_into_agent machinery (agent referenced) 50)
deep_copy_into_agent-AgentCopy_example =
    deep_copy_into_agent-AgentCopy machinery (agent referenced) 50

deep_copy_into_agent-shares_example :
    ¬ Apart
      ((agent_located machinery).locs (deep_copy_into_agent machinery (agent referenced) 50).0)
      ((agent_located machinery).locs (agent referenced))
deep_copy_into_agent-shares_example =
    deep_copy_into_agent-shares machinery (agent referenced) 50 5 (6 ∷ []) refl

deep_copy_into_agent-CopyOf_example :
    CopyOf
      (agent_located machinery)
      (agent no_reference)
      50
      (deep_copy_into_agent machinery (agent no_reference) 50)
deep_copy_into_agent-CopyOf_example =
    deep_copy_into_agent-CopyOf machinery (agent no_reference) 50 refl

abbrev tool : MyceliumTool machinery
tool = record {
  type_meta = "Tool";
  object_meta = sample_meta;
  spec = record {
    description = "lists repositories";
    credential_provider_bindings = at 1 (
        record {
          type = "OAuth";
          oauth = at 2 (record {
            credential_provider_ref = record { name = "github" };
            scopes = at 3 ("repo" ∷ []);
          });
          api_key = none;
        }
        ∷ []);
    input_schema = at 5 "{}";
    worker_pool = record { image = "tool:1"; min_replicas = at 6 (pos 0); max_replicas = none };
  };
  status = record { base = base };
}

abbrev tools : Pointer (MyceliumToolList machinery)
tools = at 7 (record { type_meta = "ToolList"; list_meta = "1"; items = at 8 (tool ∷ []) })

deep_copy_tool_list-Isolated_example :
    Isolated
      (pointer (tool_list_located machinery))
      tools
      (deep_copy_tool_list machinery tools 50).0
deep_copy_tool_list-Isolated_example = deep_copy_tool_list-Isolated machinery 50 tools (omega arith)

abbrev ecosystem : MyceliumEcosystem machinery
ecosystem = record {
  type_meta = "Ecosystem";
  object_meta = record sample_meta { deletion = at 9 77 };
  spec = record { user_verifier_endpoint = "https://verify" };
  status = record { base = base };
}

abbrev ecosystems : Pointer (MyceliumEcosystemList machinery)
ecosystems =
    at 7 (record { type_meta = "EcosystemList"; list_meta = "1"; items = at 8 (ecosystem ∷ []) })

abbrev authorizer : MyceliumAuthorizer machinery
authorizer = record {
  type_meta = "Authorizer";
  object_meta = sample_meta;
  spec = record {
    type = "JWT";
    jwt = at 1 (record {
      issuer = "https://issuer";
      audiences = at 2 ("agents" ∷ []);
      allowed_clients = none;
      allowed_scopes = at 3 [];
      jwks_endpoint = "https://issuer/certs";
    });
  };
  status = record { base = base };
}

abbrev authorizers : Pointer (MyceliumAuthorizerList machinery)
authorizers =
    at 7 (record { type_meta = "AuthorizerList"; list_meta = "1"; items = at 8 (authorizer ∷ []) })

abbrev provider : MyceliumCredentialProvider machinery
provider = record {
  type_meta = "CredentialProvider";
  object_meta = sample_meta;
  spec = record {
    type = "OAuth";
    oauth = at 1 (record {
      client_id = "client";
      client_secret_ref = "secret";
      discovery = record {
        discovery_url = at 2 "https://issuer/.well-known/openid-configuration";
        authorization_server_metadata = none;
      };
    });
    api_key = none;
  };
  status = record { base = base };
}

abbrev providers : Pointer (MyceliumCredentialProviderList machinery)
providers =
    at 7 (record {
      type_meta = "CredentialProviderList";
      list_meta = "1";
      items = at 8 (provider ∷ []);
    })

abbrev agents : Pointer (MyceliumAgentList machinery)
agents =
    at 30
      (record { type_meta = "AgentList"; list_meta = "1"; items = at 31 (agent referenced ∷ []) })

deep_copy_agent_list-Isolated_example :
    Isolated
      (pointer (own_list_located machinery))
      agents
      (deep_copy_agent_list machinery agents 50).0
deep_copy_agent_list-Isolated_example =
    deep_copy_agent_list-Isolated machinery 50 agents (omega arith)
