-- ===== src/Controller/Collection.antt =====
-- What a derived collection of krt (istio.io/istio/pkg/kube/krt) is documented to hold: one entry
-- for each input for which the transformation returns one.
use agentic_platform.Prelude.{◌≡◌, refl, sym, ap, ◌∙◌, Option, none, some, List, [], ◌∷◌, ◌++◌, All}

abbrev pub enter : {O : Type 0} → Option O → List O → List O
enter none os = os
enter (some o) os = o ∷ os

enter-append : {O : Type 0} (o : Option O) (os ps : List O) → enter o os ++ ps ≡ enter o (os ++ ps)
enter-append none os ps = refl
enter-append (some o) os ps = refl

All-enter :
    {O : Type 0} (Q : O → Type 0) (r : Option O) (os : List O)
    → ((o : O) → r ≡ some o → Q o)
    → All Q os
    → All Q (enter r os)
All-enter Q none os k a = a
All-enter Q (some o) os k a = (k o refl, a)

module _ {I O : Type 0} where
  abbrev pub derive : (I → Option O) → List I → List O
  derive f [] = []
  derive f (x ∷ xs) = enter (f x) (derive f xs)

  pub derive-append :
      (f : I → Option O) (xs ys : List I) → derive f (xs ++ ys) ≡ derive f xs ++ derive f ys
  derive-append f [] ys = refl
  derive-append f (x ∷ xs) ys =
      ap (enter (f x)) (derive-append f xs ys)
      ∙ sym (enter-append (f x) (derive f xs) (derive f ys))

  -- What holds of each entry that a transformation may return holds of the collection.
  pub All-derive :
      (f : I → Option O) (P : I → Type 0) (Q : O → Type 0)
      → ((x : I) (o : O) → f x ≡ some o → P x → Q o)
      → (xs : List I) → All P xs
      → All Q (derive f xs)
  All-derive f P Q h [] p = tt
  All-derive f P Q h (x ∷ xs) p =
      All-enter Q (f x) (derive f xs) (λ o e. h x o e p.0) (All-derive f P Q h xs p.1)

  pub derive-split :
      (f : I → Option O) (xs : List I) (x : I) (ys : List I) (o : O)
      → f x ≡ some o
      → derive f (xs ++ x ∷ ys) ≡ derive f xs ++ o ∷ derive f ys
  derive-split f xs x ys o e =
      derive-append f xs (x ∷ ys) ∙ ap (λ r. derive f xs ++ enter r (derive f ys)) e
