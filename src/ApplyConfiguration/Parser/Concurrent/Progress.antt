-- ===== src/ApplyConfiguration/Parser/Concurrent/Progress.antt =====
-- How far the goroutines that call `Parser` of internal.go have come after a number of steps.
use agentic_platform.Prelude.{◌≡◌, refl, ap, sym, ℕ, suc, ◌≤◌, ==_iff, some, arith, subst}
use agentic_platform.ApplyConfiguration.Parser.{Typed, value}
use agentic_platform.ApplyConfiguration.Parser.Concurrent.{
  Phase, free, parsing, parsed, done, State, unasked, first_parser, entered, assigned, left,
  returned_to, Step, enter, assign, leave, return_to, Reach, here, next, Invariant, HasParsed-at,
  Reach-Invariant,
}

module _ (t : Typed) where
  -- A number of steps of any goroutines, from the state in which none has called `Parser`.
  pub data Run : ℕ → State t → Type 0 where
    no_step : Run 0 (unasked t)
    one_more : {n : ℕ} {s u : State t} → Run n s → Step t s u → Run (suc n) u

  -- Some goroutine can take a step.
  pub record Moves (s : State t) : Type 0 where
    pub state : State t
    pub step : Step t s state

  -- A call of `Parser` by this goroutine can end at once, and gives the parser.
  pub record Answers (s : State t) (j : ℕ) : Type 0 where
    pub step : Step t s (returned_to t j s)
    pub result : (returned_to t j s).results j ≡ some (value (first_parser t))

  -- The function that `Do` runs is not left yet, and somebody can go on in it; or it has been left.
  pub data Progress (n : ℕ) (s : State t) : Type 0 where
    under_way : n ≤ 2 → Moves s → Progress n s
    ended : (i : ℕ) → s.phase ≡ done i → ((j : ℕ) → Answers s j) → Progress n s

  -- The number of steps that lead to a phase before the last.
  abbrev HasTaken : Phase → ℕ → Type 0
  HasTaken free n = n ≡ 0
  HasTaken (parsing i) n = n ≡ 1
  HasTaken (parsed i) n = n ≡ 2
  HasTaken (done i) n = Unit

  Run-Reach : (n : ℕ) (s : State t) → Run n s → Reach t (unasked t) s
  Run-Reach n s no_step = here
  Run-Reach n s (one_more {n = m} {s = u} r st) = next (Run-Reach m u r) st

  HasTaken-at : (n : ℕ) (s : State t) (p : Phase) → s.phase ≡ p → HasTaken s.phase n → HasTaken p n
  HasTaken-at n s p e h = subst (λ q. HasTaken q n) e h

  Step-HasTaken :
      (n : ℕ) (s u : State t) → Step t s u → HasTaken s.phase n → HasTaken u.phase (suc n)
  Step-HasTaken n s u (enter i e) h = ap suc (HasTaken-at n s free e h)
  Step-HasTaken n s u (assign i e) h = ap suc (HasTaken-at n s (parsing i) e h)
  Step-HasTaken n s u (leave i e) h = tt
  Step-HasTaken n s u (return_to i j e) h = subst (λ p. HasTaken p (suc n)) (sym e) tt

  Run-HasTaken : (n : ℕ) (s : State t) → Run n s → HasTaken s.phase n
  Run-HasTaken n s no_step = refl
  Run-HasTaken n s (one_more {n = m} {s = u} r st) = Step-HasTaken m u s st (Run-HasTaken m u r)

  done-Answers : (s : State t) (i j : ℕ) → s.phase ≡ done i → Invariant t s → Answers s j
  done-Answers s i j e h = record {
    step = return_to i j e;
    result = rw ((==_iff j j).1 refl) (ap (λ p. some (value p)) (HasParsed-at t s (done i) e h).1);
  }

  phase-Progress :
      (n : ℕ) (s : State t) (p : Phase) → s.phase ≡ p → HasTaken p n → Invariant t s → Progress n s
  phase-Progress n s free e c h =
      under_way (omega arith) (record { state = entered t 0 s; step = enter 0 e })
  phase-Progress n s (parsing i) e c h =
      under_way (omega arith) (record { state = assigned t i s; step = assign i e })
  phase-Progress n s (parsed i) e c h =
      under_way (omega arith) (record { state = left t i s; step = leave i e })
  phase-Progress n s (done i) e c h = ended i e (λ j. done-Answers s i j e h)

  -- Whatever turns the goroutines take: after at most two steps one of them can take a further step, and
  -- else the function that `Do` runs has been left, and a call of `Parser` by any goroutine, also one
  -- that has called before, can end by the next step, with the parser that was made.
  pub Run-Progress : (n : ℕ) (s : State t) → Run n s → Progress n s
  Run-Progress n s r =
      phase-Progress n s s.phase refl (Run-HasTaken n s r) (Reach-Invariant t s (Run-Reach n s r))
