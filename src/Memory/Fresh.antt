-- ===== src/Memory/Fresh.antt =====
-- Lists of addresses that were allocated one after the other.
use agentic_platform.Prelude.{ℕ, suc, ◌≤◌, ◌<◌, List, [], ◌∷◌, ◌++◌, All, arith}

-- The addresses rise, from `n` on and below `m`: so they are distinct, and new if all storage in
-- use lies below `n`.
abbrev pub Fresh : ℕ → List ℕ → ℕ → Type 0
Fresh n [] m = n ≤ m
Fresh n (x ∷ xs) m = (n ≤ x) × Fresh (suc x) xs m

pub Fresh-weaken : (n k : ℕ) (xs : List ℕ) (m : ℕ) → n ≤ k → Fresh k xs m → Fresh n xs m
Fresh-weaken n k [] m h f = omega arith
Fresh-weaken n k (x ∷ xs) m h f = (omega arith, f.1)

pub Fresh-le : (n : ℕ) (xs : List ℕ) (m : ℕ) → Fresh n xs m → n ≤ m
Fresh-le n [] m f = f
Fresh-le n (x ∷ xs) m f = omega (arith, Fresh-le (suc x) xs m f.1)

pub Fresh-append :
    (n : ℕ) (xs : List ℕ) (m : ℕ) (ys : List ℕ) (p : ℕ)
    → Fresh n xs m
    → Fresh m ys p
    → Fresh n (xs ++ ys) p
Fresh-append n [] m ys p f g = Fresh-weaken n m ys p f g
Fresh-append n (x ∷ xs) m ys p f g = (f.0, Fresh-append (suc x) xs m ys p f.1 g)

-- All of them are at least `n`.
pub Fresh-All : (n k : ℕ) (xs : List ℕ) (m : ℕ) → k ≤ n → Fresh n xs m → All (λ a. k ≤ a) xs
Fresh-All n k [] m h f = tt
Fresh-All n k (x ∷ xs) m h f = (omega arith, Fresh-All (suc x) k xs m (omega arith) f.1)

pub Fresh-below : (n : ℕ) (xs : List ℕ) (m : ℕ) → Fresh n xs m → All (λ a. a < m) xs
Fresh-below n [] m f = tt
Fresh-below n (x ∷ xs) m f =
    (omega (arith, Fresh-le (suc x) xs m f.1), Fresh-below (suc x) xs m f.1)
