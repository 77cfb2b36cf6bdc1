-- ===== src/Tests/Starting.antt =====
-- The start of the controller with concrete outcomes.
use agentic_platform.Prelude.{
  ◌≡◌, refl, String, Bool, true, false, not, none, some, List, [], ◌∷◌, ◌++◌, map, All, str_eq,
  if◌then◌else◌,
}
use agentic_platform.Kubernetes.{GroupVersionKind, GroupVersionResource}
use agentic_platform.Controller.Start.{start, set_up, wait_until_synced, start-timed_out}
use agentic_platform.Controller.Register.{go_type_name, init, register_krt}
use agentic_platform.Controller.Register.Resources.{role_rules, allows, init-not_allowed}
use agentic_platform.Main.{
  Outcomes, main, get_config_or_die, new_manager, new_controller, add_controller, start_manager,
  makes, is_add_controller, main-fails, main-starts,
}

abbrev third_late : String → Bool
third_late x = not (str_eq x "ObservedEcosystemNamespaces")

start-timed_out_example : start third_late ≡ (
  set_up
      ++ map wait_until_synced
          ("EcosystemNamespaces" ∷ "AgentServiceAccounts" ∷ "ObservedEcosystemNamespaces" ∷ []),
  some "timed out waiting for ObservedEcosystemNamespaces collection to sync",
)
start-timed_out_example =
    start-timed_out third_late ("EcosystemNamespaces" ∷ "AgentServiceAccounts" ∷ [])
      "ObservedEcosystemNamespaces" ("ObservedAgentServiceAccounts" ∷ []) refl (refl, (refl, tt))
      refl

-- What meta.UnsafeGuessKindToResource makes of a kind, by a table.
abbrev plurals : List (String × String)
plurals =
    ("MyceliumEcosystem", "myceliumecosystems")
    ∷ ("MyceliumAuthorizer", "myceliumauthorizers")
    ∷ ("MyceliumTool", "myceliumtools")
    ∷ ("MyceliumAgent", "myceliumagents")
    ∷ ("MyceliumCredentialProvider", "myceliumcredentialproviders")
    ∷ []

abbrev plural : List (String × String) → String → String
plural [] kind = kind
plural ((k, p) ∷ ps) kind = if str_eq kind k then p else plural ps kind

abbrev guess : GroupVersionKind → GroupVersionResource
guess gvk = record { group_version = gvk.group_version; resource = plural plurals gvk.kind }

init-not_allowed_example :
    All
      (λ r.
        (r.gvk.kind ≡ go_type_name r.obj)
        × (allows role_rules "mycelium.io" r.gvr.resource "watch" ≡ false))
      (init guess [])
unfolding init register_krt
init-not_allowed_example =
    init-not_allowed guess "mycelium.io" "watch" (refl, (refl, (refl, (refl, (refl, tt)))))

-- The role lets the observed namespaces and service accounts be watched.
observed_allowed :
    (allows role_rules "" "namespaces" "watch" ≡ true)
    × (allows role_rules "" "serviceaccounts" "watch" ≡ true)
observed_allowed = (refl, refl)

abbrev succeed : Outcomes String
succeed = record { config = none; manager = none; controller = none; added = none; started = none }

-- The controller cannot be made.
abbrev no_controller : Outcomes String
no_controller = record succeed { controller = some "no client" }

main-fails_example : main no_controller ≡ record {
  calls = get_config_or_die ∷ new_manager "mycelium-leader" ∷ new_controller ∷ [];
  logged = ("unable to create KRT controller", "no client") ∷ [];
  status = 1;
}
main-fails_example =
    main-fails no_controller
      (record {
        call = new_manager "mycelium-leader";
        message = "unable to start manager";
        error = none;
      }
        ∷ [])
      (record {
        call = new_controller;
        message = "unable to create KRT controller";
        error = some "no client";
      })
      (record {
        call = add_controller;
        message = "unable to register KRT controller with manager";
        error = none;
      }
        ∷ record { call = start_manager; message = "problem running manager"; error = none }
        ∷ [])
      "no client" refl refl (refl, tt) refl

main-starts_example :
    (makes is_add_controller (main succeed).calls ≡ true)
    × (succeed.config ≡ none)
    × (succeed.manager ≡ none)
    × (succeed.controller ≡ none)
    × (succeed.added ≡ none)
unfolding main
main-starts_example = main-starts succeed refl
