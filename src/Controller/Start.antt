-- ===== src/Controller/Start.antt =====
-- controller.go
use agentic_platform.Prelude.{
  ◌≡◌, refl, ap, sym, ◌∙◌, String, Bool, true, false, Option, none, some, List, [], ◌∷◌, ◌++◌, map,
  All, concat, join, if◌then◌else◌,
}
use agentic_platform.Controller.WellKnown.{default_mycelium_controller_name}

-- The outcome of kube.NewClient: a client or an error.
pub data Result (A : Type 0) : Type 0 where
  ok : A → Result A
  err : String → Result A

pub record Controller (K S : Type 0) : Type 0 where
  pub kube_client : K
  pub ssa_client : S

-- `New`; the first argument is what kube.NewClient returns.
pub new : {K S : Type 0} → Result K → S → Result (Controller K S)
new (err e) ssa = err (join ("creating KRT kube client: " ∷ e ∷ []))
new (ok kube) ssa = ok (record { kube_client = kube; ssa_client = ssa })

-- What `Start` does, in the order in which it does it. Collections are known by their names.
pub data Effect : Type 0 where
  new_informer : String → Effect
  new_filtered_informer : String → String → Effect
  new_collection : String → String → Effect
  register_sink : String → Effect
  run_and_wait : Effect
  wait_until_synced : String → Effect
  wait_for_stop : Effect

abbrev pub label_selector : String
label_selector = join ("app.kubernetes.io/managed-by=" ∷ default_mycelium_controller_name ∷ [])

abbrev pub set_up : List Effect
set_up =
    new_informer "MyceliumEcosystems"
    ∷ new_informer "MyceliumAgents"
    ∷ new_informer "MyceliumTools"
    ∷ new_informer "MyceliumCredentialProviders"
    ∷ new_filtered_informer "ObservedEcosystemNamespaces" label_selector
    ∷ new_filtered_informer "ObservedAgentServiceAccounts" label_selector
    ∷ new_collection "EcosystemNamespaces" "MyceliumEcosystems"
    ∷ new_collection "AgentServiceAccounts" "MyceliumAgents"
    ∷ register_sink "EcosystemNamespaces"
    ∷ register_sink "AgentServiceAccounts"
    ∷ run_and_wait
    ∷ []

-- The collections that `Start` waits for.
abbrev pub awaited : List String
awaited =
    "EcosystemNamespaces" ∷ "AgentServiceAccounts" ∷ "ObservedEcosystemNamespaces"
    ∷ "ObservedAgentServiceAccounts" ∷ []

abbrev pub timed_out : String → String
timed_out name = join ("timed out waiting for " ∷ name ∷ " collection to sync" ∷ [])

-- `synced` is what `WaitUntilSynced(stop)` returns for a collection.
module _ (synced : String → Bool) where
  pub wait_all : List String → List Effect × Option String
  wait_all [] = (wait_for_stop ∷ [], none)
  wait_all (x ∷ xs) =
      let (effects, error) = wait_all xs in
      if synced x
      then (wait_until_synced x ∷ effects, error)
      else (wait_until_synced x ∷ [], some (timed_out x))

  -- The effects, and the error that is returned; `none` is nil, behind the end of the context.
  pub start : List Effect × Option String
  start = let (effects, error) = wait_all awaited in (set_up ++ effects, error)

  wait_all-synced :
      (xs : List String)
      → All (λ x. synced x ≡ true) xs
      → wait_all xs ≡ (map wait_until_synced xs ++ wait_for_stop ∷ [], none)
  unfolding wait_all
  wait_all-synced [] h = refl
  wait_all-synced (x ∷ xs) h = rw (h.0, wait_all-synced xs h.1) refl

  wait_all-timed_out :
      (before : List String) (x : String) (after : List String)
      → All (λ y. synced y ≡ true) before
      → synced x ≡ false
      → wait_all (before ++ x ∷ after)
        ≡ (map wait_until_synced (before ++ x ∷ []), some (timed_out x))
  unfolding wait_all
  wait_all-timed_out [] x after h e = rw e refl
  wait_all-timed_out (y ∷ before) x after h e =
      rw (h.0, wait_all-timed_out before x after h.1 e) refl

  -- If all four collections sync, `Start` runs until the context ends and returns nil.
  start-synced :
      All (λ x. synced x ≡ true) awaited
      → start ≡ (set_up ++ map wait_until_synced awaited ++ wait_for_stop ∷ [], none)
  unfolding start
  start-synced h = rw (wait_all-synced awaited h) refl

  -- If a collection does not sync and those in front of it do, `Start` returns the error `timed out
  -- waiting for … collection to sync` with its name, has waited for those in front of it and for none
  -- behind it, and does not wait for the end of the context.
  pub start-timed_out :
      (before : List String) (x : String) (after : List String)
      → before ++ x ∷ after ≡ awaited
      → All (λ y. synced y ≡ true) before
      → synced x ≡ false
      → start ≡ (
        set_up ++ map wait_until_synced (before ++ x ∷ []),
        some (concat "timed out waiting for " (concat x " collection to sync")),
      )
  unfolding start
  start-timed_out before x after s h e =
      ap (λ xs. let (effects, error) = wait_all xs in (set_up ++ effects, error)) (sym s)
      ∙ ap (λ (r : List Effect × Option String). (set_up ++ r.0, r.1))
          (wait_all-timed_out before x after h e)
