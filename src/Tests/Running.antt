-- ===== src/Tests/Running.antt =====
-- Concrete changes of ecosystems and agents, and a concrete krt.
use agentic_platform.Prelude.{
  ◌≡◌, ◌≢◌, refl, ap, String, false, Option, none, some, List, [], ◌∷◌, str_eq,
}
use agentic_platform.Controller.Client.{Request}
use agentic_platform.Controller.Keys.{key_eq}
use agentic_platform.Controller.Sink.{Event, event_add, event_update, event_delete}
use agentic_platform.Controller.Sink.Batch.{written}
use agentic_platform.Controller.Run.{Krt, State, Change, stored, gone, step, here, next}
use agentic_platform.Controller.Ecosystem.{EcosystemNamespace, ecosystem_namespace_field_manager}
use agentic_platform.Controller.Ecosystem.Pipeline
use agentic_platform.Controller.Ecosystem.Runs
use agentic_platform.Controller.Agent.{AgentServiceAccount, agent_service_account_field_manager}
use agentic_platform.Controller.Agent.Pipeline as AgentPipeline
use agentic_platform.Controller.Agent.Runs as AgentRuns
use agentic_platform.Tests.Samples.{machinery, client, server_side_apply}
use agentic_platform.Tests.Writing.{world, ecosystem, alpha, agent}

module _ {O : Type 0} (dec : (a b : O) → Dec (a ≡ b)) where
  update : (a b : O) → Dec (a ≡ b) → List (Event O)
  update a b (yes e) = []
  update a b (no n) = event_update a b ∷ []

  emit : Option O → Option O → List (Event O)
  unfolding update
  emit none none = []
  emit (some a) none = event_delete a ∷ []
  emit none (some b) = event_add b ∷ []
  emit (some a) (some b) = update a b (dec a b)

  emit-none : (old : Option O) → written (emit old none) ≡ []
  unfolding emit
  emit-none none = refl
  emit-none (some a) = refl

  update-same : (a b : O) (d : Dec (a ≡ b)) → a ≡ b → written (update a b d) ≡ []
  unfolding update
  update-same a b (yes e) h = refl
  update-same a b (no n) h = absurd (n h)

  update-new : (a b : O) (d : Dec (a ≡ b)) → a ≢ b → written (update a b d) ≡ b ∷ []
  unfolding update
  update-new a b (yes e) h = absurd (h e)
  update-new a b (no n) h = refl

  emit-new : (old : Option O) (o : O) → old ≢ some o → written (emit old (some o)) ≡ o ∷ []
  unfolding emit
  emit-new none o h = refl
  emit-new (some a) o h = update-new a o (dec a o) (λ e. h (ap some e))

  emit-same : (o : O) → written (emit (some o) (some o)) ≡ []
  unfolding emit
  emit-same o = update-same o o (dec o o) refl

  krt : Krt O
  krt = record {
    emit = emit;
    written-emit-none = emit-none;
    written-emit-same = emit-same;
    written-emit-new = emit-new;
  }

abbrev namespaces : Krt EcosystemNamespace
namespaces = krt Runs.dec_entry

module _ (name : String) (differs : str_eq name "refused" ≡ false) where
  -- A request for an object with a name other than `refused` is taken.
  taken :
      (r : Request) (s : client.Server) → r.desired.key.name ≡ name → (client.apply r s).0 ≡ none
  taken r s e = rw (e, differs) refl

abbrev Namespaces : Type 0
Namespaces = State server_side_apply (Runs.reconciler machinery client) namespaces

abbrev first_watch : Namespaces
first_watch = Runs.unwatched machinery client server_side_apply namespaces world

abbrev ecosystem_step :
    Change server_side_apply (Runs.reconciler machinery client) namespaces → Namespaces → Namespaces
ecosystem_step = step server_side_apply (Runs.reconciler machinery client) namespaces

-- `alpha` is being deleted, is gone, and is made anew, and an apply for another ecosystem is refused.
abbrev remade : Namespaces
remade = ecosystem_step (stored (ecosystem "refused" none)) (
    ecosystem_step (stored alpha) (
      ecosystem_step (gone (Pipeline.namespace_key machinery "alpha")) (
        ecosystem_step (stored (ecosystem "alpha" (some (record { addr = 1; content = 5 }))))
          first_watch)))

ecosystem_runs-ensure_example :
    remade.world.server ecosystem_namespace_field_manager (Pipeline.namespace_key machinery "alpha")
    ≡ some (Pipeline.asked_namespace machinery alpha)
unfolding step key_eq
ecosystem_runs-ensure_example =
    Runs.ecosystem_runs-ensure machinery client server_side_apply namespaces world remade "alpha"
      alpha
      (next (stored (ecosystem "refused" none)) (
        next (stored alpha) (
          next (gone (Pipeline.namespace_key machinery "alpha"))
            (next (stored (ecosystem "alpha" (some (record { addr = 1; content = 5 })))) here))))
      (λ r s e. taken "alpha" refl r s (ap (λ x. x.name) e)) refl refl

-- The ecosystem that the server refuses is stored once more.
ecosystem_runs-resend_nothing_example :
    (ecosystem_step (stored (ecosystem "refused" none)) remade).world ≡ remade.world
unfolding step key_eq
ecosystem_runs-resend_nothing_example =
    Runs.ecosystem_runs-resend_nothing machinery client server_side_apply namespaces remade
      (ecosystem "refused" none) (ecosystem "refused" none) refl refl refl refl

abbrev accounts : Krt AgentServiceAccount
accounts = krt AgentRuns.dec_entry

abbrev Accounts : Type 0
Accounts = State server_side_apply (AgentRuns.reconciler machinery client) accounts

abbrev agent_step :
    Change server_side_apply (AgentRuns.reconciler machinery client) accounts → Accounts → Accounts
agent_step = step server_side_apply (AgentRuns.reconciler machinery client) accounts

abbrev two_agents : Accounts
two_agents = agent_step (stored (agent "beta" "search")) (
    agent_step (stored (agent "alpha" "search"))
      (AgentRuns.unwatched machinery client server_side_apply accounts world))

agent_runs-ensure_example :
    two_agents.world.server agent_service_account_field_manager
      (AgentPipeline.key_of_agent machinery (agent "alpha" "search"))
    ≡ some (AgentPipeline.asked_service_account machinery (agent "alpha" "search"))
unfolding step key_eq
agent_runs-ensure_example =
    AgentRuns.agent_runs-ensure machinery client server_side_apply accounts world two_agents
      (AgentPipeline.key_of_agent machinery (agent "alpha" "search")) (agent "alpha" "search")
      (next (stored (agent "beta" "search")) (next (stored (agent "alpha" "search")) here))
      (λ r s e. taken "search" refl r s (ap (λ x. x.name) e)) refl refl
