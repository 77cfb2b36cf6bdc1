-- ===== src/Main.antt =====
-- mycelium/cmd/controller/main.go
use agentic_platform.Prelude.{
  ℕ, ◌≡◌, refl, ap, sym, ◌∙◌, arith, String, Bool, true, false, ◌||◌, Option, none, some, List, [],
  ◌∷◌, ◌++◌, map, All,
}
use agentic_platform.Controller.WellKnown.{leader_election_id}

-- What `main` calls of controller-runtime and of the controller.
pub data Call : Type 0 where
  get_config_or_die : Call
  new_manager : String → Call
  new_controller add_controller start_manager : Call

-- The error of each call, if it fails.
pub record Outcomes (E : Type 0) : Type 0 where
  pub config : Option E
  pub manager : Option E
  pub controller : Option E
  pub added : Option E
  pub started : Option E

-- A run of `main`: the calls made, the errors that it logs with their messages, the exit status.
pub record Run (E : Type 0) : Type 0 where
  pub calls : List Call
  pub logged : List (String × E)
  pub status : ℕ

-- A call of `main` with the message for its error, and the error, if it fails.
pub record Attempt (E : Type 0) : Type 0 where
  pub call : Call
  pub message : String
  pub error : Option E

-- Is the call among these?
abbrev pub makes : (Call → Bool) → List Call → Bool
makes p [] = false
makes p (c ∷ cs) = p c || makes p cs

abbrev pub is_start_manager : Call → Bool
is_start_manager start_manager = true
is_start_manager _ = false

abbrev pub is_add_controller : Call → Bool
is_add_controller add_controller = true
is_add_controller _ = false

module _ {E : Type 0} where
  -- `if err := …; err != nil { ctrl.Log.Error(err, message); os.Exit(1) }`, or the rest.
  abbrev checked : Call → String → Option E → Run E → Run E
  checked call message (some e) rest = record {
    calls = call ∷ [];
    logged = (message, e) ∷ [];
    status = 1;
  }
  checked call message none rest = record rest { calls = call ∷ rest.calls }

  unfoldable pub main : Outcomes E → Run E
  main o = elim o.config [
    | some e ↦ record { calls = get_config_or_die ∷ []; logged = []; status = 1 }
    | none ↦
        let run = checked (new_manager leader_election_id) "unable to start manager" o.manager (
          checked new_controller "unable to create KRT controller" o.controller (
            checked add_controller "unable to register KRT controller with manager" o.added (
              checked start_manager "problem running manager" o.started
                (record { calls = []; logged = []; status = 0 })))) in
        record run { calls = get_config_or_die ∷ run.calls }
  ]

  -- The calls behind the reading of the configuration, in their order.
  abbrev pub attempts : Outcomes E → List (Attempt E)
  attempts o =
      record {
        call = new_manager "mycelium-leader";
        message = "unable to start manager";
        error = o.manager;
      }
      ∷ record {
        call = new_controller;
        message = "unable to create KRT controller";
        error = o.controller;
      }
      ∷ record {
        call = add_controller;
        message = "unable to register KRT controller with manager";
        error = o.added;
      }
      ∷ record { call = start_manager; message = "problem running manager"; error = o.started }
      ∷ []

  run_all : List (Attempt E) → Run E
  run_all [] = record { calls = []; logged = []; status = 0 }
  run_all (a ∷ xs) = checked a.call a.message a.error (run_all xs)

  abbrev configured : Run E → Run E
  configured run = record run { calls = get_config_or_die ∷ run.calls }

  main-run_all : (o : Outcomes E) → o.config ≡ none → main o ≡ configured (run_all (attempts o))
  unfolding main run_all
  main-run_all o h = rw h refl

  run_all-failed :
      (before : List (Attempt E)) (a : Attempt E) (after : List (Attempt E)) (e : E)
      → All (λ b. b.error ≡ none) before
      → a.error ≡ some e
      → run_all (before ++ a ∷ after) ≡ record {
        calls = map (λ b. b.call) (before ++ a ∷ []);
        logged = (a.message, e) ∷ [];
        status = 1;
      }
  unfolding run_all
  run_all-failed [] a after e h fails = rw fails refl
  run_all-failed (b ∷ before) a after e h fails = rw h.0 (
      ap (λ (run : Run E). record run { calls = b.call ∷ run.calls })
        (run_all-failed before a after e h.1 fails))

  -- If the configuration is read and a call is the first of the four behind it that fails, `main` makes
  -- the calls in front of it, that call, and none behind it, logs its error with its message and no
  -- other, and exits with status 1.
  pub main-fails :
      (o : Outcomes E) (before : List (Attempt E)) (a : Attempt E) (after : List (Attempt E))
      (e : E)
      → o.config ≡ none
      → before ++ a ∷ after ≡ attempts o
      → All (λ b. b.error ≡ none) before
      → a.error ≡ some e
      → main o ≡ record {
        calls = get_config_or_die ∷ map (λ b. b.call) (before ++ a ∷ []);
        logged = (a.message, e) ∷ [];
        status = 1;
      }
  main-fails o before a after e read split h fails =
      main-run_all o read
      ∙ ap (λ xs. configured (run_all xs)) (sym split)
      ∙ ap configured (run_all-failed before a after e h fails)

  -- If the calls that `main` makes have the start of the manager among them, they have the addition of
  -- the controller among them, too, and that succeeded, as did the reading of the configuration and the
  -- making of the manager and of the controller.
  pub main-starts :
      (o : Outcomes E)
      → makes is_start_manager (main o).calls ≡ true
      → (makes is_add_controller (main o).calls ≡ true)
        × (o.config ≡ none)
        × (o.manager ≡ none)
        × (o.controller ≡ none)
        × (o.added ≡ none)
  unfolding main
  main-starts o h = ground arith
