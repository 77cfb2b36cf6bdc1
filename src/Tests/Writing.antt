-- ===== src/Tests/Writing.antt =====
-- The sinks on concrete events.
use agentic_platform.Prelude.{
  ℕ, ◌≡◌, refl, String, none, some, List, [], ◌∷◌, ◌++◌, str_eq_iff, arith,
}
use agentic_platform.Prelude.Int.{pos}
use agentic_platform.Memory.{Pointer}
use agentic_platform.Api.Ecosystem.{MyceliumEcosystem}
use agentic_platform.Api.Agent.{MyceliumAgent}
use agentic_platform.Controller.Client.{service_account_kind, ObjectKey}
use agentic_platform.Controller.Sink.{
  Event, event_add, event_update, event_delete, World, handle_batch,
}
use agentic_platform.Controller.Sink.Batch.{written, send_all, failures, handle_batch_lem}
use agentic_platform.Controller.Ecosystem.{
  EcosystemNamespace, ecosystem_namespace, apply_ecosystem_namespace,
  ecosystem_namespace_field_manager, namespace_writes, namespace_sink,
}
use agentic_platform.Controller.Ecosystem.Pipeline
use agentic_platform.Controller.Agent.{
  AgentServiceAccount, agent_service_account, apply_agent_service_account,
  agent_service_account_field_manager, agent_service_account_sink,
}
use agentic_platform.Controller.Agent.Pipeline as AgentPipeline
use agentic_platform.Controller.Agent.Names.{resource_name-injective}
use agentic_platform.Tests.Samples.{machinery, client, server_side_apply, empty}

abbrev pub ecosystem : String → Pointer ℕ → MyceliumEcosystem machinery
ecosystem name deletion = record {
  type_meta = "MyceliumEcosystem";
  object_meta = record { name = name; namespace = ""; uid = "u"; deletion = deletion };
  spec = record { user_verifier_endpoint = "https://verify" };
  status = record { base = record { observed_generation = pos 0; conditions = none } };
}

-- One that the server refuses, and one that is being deleted, in front of `alpha`.
abbrev before : List (MyceliumEcosystem machinery)
before = ecosystem "refused" none ∷ ecosystem "gamma" (some (record { addr = 1; content = 5 })) ∷ []

abbrev pub alpha : MyceliumEcosystem machinery
alpha = ecosystem "alpha" none

abbrev after : List (MyceliumEcosystem machinery)
after = ecosystem "beta" none ∷ []

abbrev entry_named : String → EcosystemNamespace
entry_named name = record { ecosystem_name = name; ecosystem_uid = "u" }

abbrev events : List (Event EcosystemNamespace)
events =
    event_add (entry_named "refused")
    ∷ event_delete (entry_named "gamma")
    ∷ event_update (entry_named "old") (entry_named "alpha")
    ∷ event_add (entry_named "beta")
    ∷ []

abbrev pub world : World client
world = record { server = empty; output = [] }

namespace_sink-ensures_example :
    (namespace_sink machinery client events world).server ecosystem_namespace_field_manager
      (Pipeline.namespace_key machinery "alpha")
    ≡ some (Pipeline.asked_namespace machinery alpha)
unfolding ecosystem_namespace apply_ecosystem_namespace
namespace_sink-ensures_example =
    Pipeline.namespace_sink-ensures machinery client server_side_apply events world before alpha
      after refl refl ((λ e. ground (arith, str_eq_iff "beta" "alpha")), tt) refl

namespace_sink-ignores_example :
    (namespace_sink machinery client events world).server ecosystem_namespace_field_manager
      (Pipeline.namespace_key machinery "gamma")
    ≡ none
unfolding ecosystem_namespace
namespace_sink-ignores_example =
    Pipeline.namespace_sink-ignores machinery client server_side_apply events world
      (before ++ alpha ∷ after) "gamma" refl
      (
        (λ live e. ground (arith, str_eq_iff "refused" "gamma")),
        (
          (λ live e. cc),
          (
            (λ live e. ground (arith, str_eq_iff "alpha" "gamma")),
            ((λ live e. ground (arith, str_eq_iff "beta" "gamma")), tt),
          ),
        ),
      )

handle_batch_lem_example : handle_batch (namespace_writes machinery client) events world ≡ record {
  server = send_all (namespace_writes machinery client) (written events) empty;
  output = failures (namespace_writes machinery client) (written events) empty [];
}
handle_batch_lem_example = handle_batch_lem (namespace_writes machinery client) events world

-- The refused apply leaves one line, and the sink goes on.
one_line :
    failures (namespace_writes machinery client) (written events) empty []
    ≡ "mycelium-ecosystem-namespace: failed to apply namespace for ecosystem \"refused\": forbidden\n"
      ∷ []
unfolding apply_ecosystem_namespace
one_line = refl

abbrev pub agent : String → String → MyceliumAgent machinery
agent namespace name = record {
  type_meta = "MyceliumAgent";
  object_meta = record { name = name; namespace = namespace; uid = "u"; deletion = none };
  spec = record {
    description = "d";
    tool_bindings = none;
    sandbox_pool = record { image = "i"; shutdown_timeout = "1h"; replicas = none };
  };
  status = record {
    base = record { observed_generation = pos 0; conditions = none };
    tool_bindings = none;
    service_account = record { resource_ref = none; conditions = none };
  };
}

abbrev account : String → String → AgentServiceAccount
account namespace name = record { agent_name = name; agent_namespace = namespace; agent_uid = "u" }

abbrev account_events : List (Event AgentServiceAccount)
account_events =
    event_add (account "alpha" "refused")
    ∷ event_add (account "alpha" "search")
    ∷ event_add (account "beta" "search")
    ∷ []

abbrev key : String → String → ObjectKey
key namespace name = record { kind = service_account_kind; namespace = namespace; name = name }

agent_service_account_sink-ensures_example :
    (agent_service_account_sink machinery client account_events world).server
      agent_service_account_field_manager
      (key "alpha" "search")
    ≡ some (AgentPipeline.asked_service_account machinery (agent "alpha" "search"))
unfolding agent_service_account apply_agent_service_account
agent_service_account_sink-ensures_example =
    AgentPipeline.agent_service_account_sink-ensures machinery client server_side_apply
      account_events world (agent "alpha" "refused" ∷ []) (agent "alpha" "search")
      (agent "beta" "search" ∷ []) refl refl ((λ e. ground (arith, str_eq_iff "beta" "alpha")), tt)
      refl

resource_name-injective_example :
    (◌≡◌ {A = String} "alpha" "alpha") × (◌≡◌ {A = String} "search" "search")
resource_name-injective_example =
    resource_name-injective (account "alpha" "search") (account "alpha" "search") (omega arith)
      (omega arith) refl

agent_service_account_sink-ignores_example :
    (agent_service_account_sink machinery client account_events world).server
      agent_service_account_field_manager
      (key "gamma" "search")
    ≡ none
unfolding agent_service_account
agent_service_account_sink-ignores_example =
    AgentPipeline.agent_service_account_sink-ignores machinery client server_side_apply
      account_events world
      (agent "alpha" "refused" ∷ agent "alpha" "search" ∷ agent "beta" "search" ∷ [])
      (key "gamma" "search") refl
      (
        (λ live e. ground (arith, str_eq_iff "alpha" "gamma")),
        (
          (λ live e. ground (arith, str_eq_iff "alpha" "gamma")),
          ((λ live e. ground (arith, str_eq_iff "beta" "gamma")), tt),
        ),
      )
