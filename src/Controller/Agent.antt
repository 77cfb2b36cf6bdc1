-- ===== src/Controller/Agent.antt =====
-- agent.go: from a MyceliumAgent to its service account.
pub mod Pipeline
pub mod Runs
pub mod Names
use agentic_platform.Prelude.{String, true, Option, none, some, List, [], ◌∷◌, join, quoted}
use agentic_platform.Kubernetes.{Machinery}
use agentic_platform.Api.Gvk.{mycelium_agent_gvk}
use agentic_platform.Api.Agent.{MyceliumAgent}
use agentic_platform.Controller.WellKnown.{default_mycelium_controller_name}
use agentic_platform.Controller.Client.{
  OwnerReference, service_account_kind, ApplyConfiguration, Request, Client,
}
use agentic_platform.Controller.Sink.{Event, World, Writes, handle_batch}

abbrev pub agent_service_account_field_manager : String
agent_service_account_field_manager = "mycelium-agent-serviceaccount"

pub record AgentServiceAccount : Type 0 where
  pub agent_name : String
  pub agent_namespace : String
  pub agent_uid : String

pub resource_name : AgentServiceAccount → String
resource_name a = join (a.agent_namespace ∷ "/" ∷ a.agent_name ∷ [])

module _ (k : Machinery) where
  -- The transformation of `agentServiceAccountCollection`; `none` is nil, no entry.
  unfoldable pub agent_service_account : MyceliumAgent k → Option AgentServiceAccount
  agent_service_account agent = elim (k.deletion_timestamp agent.object_meta) [
    | some t ↦ none
    | none ↦ some (record {
      agent_name = k.name agent.object_meta;
      agent_namespace = k.namespace agent.object_meta;
      agent_uid = k.uid agent.object_meta;
    })
  ]

  -- `ownerRef` of `applyAgentServiceAccount`.
  abbrev pub owner_reference : AgentServiceAccount → OwnerReference
  owner_reference sa = record {
    api_version = k.group_version_to_string mycelium_agent_gvk.group_version;
    kind = mycelium_agent_gvk.kind;
    name = sa.agent_name;
    uid = sa.agent_uid;
    controller = true;
    block_owner_deletion = true;
  }

  abbrev pub desired_service_account : AgentServiceAccount → ApplyConfiguration
  desired_service_account sa = record {
    key = record {
      kind = service_account_kind;
      namespace = sa.agent_namespace;
      name = sa.agent_name;
    };
    owner_references = owner_reference sa ∷ [];
    labels =
        ("mycelium.io/agent", sa.agent_name)
        ∷ ("app.kubernetes.io/managed-by", default_mycelium_controller_name)
        ∷ [];
  }

  -- The call of `Apply` that `applyAgentServiceAccount` makes.
  unfoldable pub apply_agent_service_account : AgentServiceAccount → Request
  apply_agent_service_account sa = record {
    desired = desired_service_account sa;
    field_owner = agent_service_account_field_manager;
    force_ownership = true;
  }

  -- `"%s: failed to apply ServiceAccount for agent %q: %v\n"`
  abbrev pub apply_failure : (c : Client) → AgentServiceAccount → c.Error → String
  apply_failure c sa err = join (
      agent_service_account_field_manager
      ∷ ": failed to apply ServiceAccount for agent "
      ∷ quoted (join (sa.agent_namespace ∷ "/" ∷ sa.agent_name ∷ []))
      ∷ ": "
      ∷ c.message err
      ∷ "\n"
      ∷ [])

  abbrev pub service_account_writes : (c : Client) → Writes c AgentServiceAccount
  service_account_writes c = record {
    request = apply_agent_service_account;
    failure = apply_failure c;
  }

  -- The handler that `registerAgentServiceAccountSink` registers.
  pub agent_service_account_sink :
      (c : Client) → List (Event AgentServiceAccount) → World c → World c
  agent_service_account_sink c = handle_batch (service_account_writes c)
