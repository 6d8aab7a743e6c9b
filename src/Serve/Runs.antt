-- ===== src/Serve/Runs.antt =====
-- Runs of a step relation, of which some steps are bound to happen as long as they are possible.
use ohttp_relay.Prelude.{ℕ, suc, ◌+◌, ◌≤◌, ◌<◌, ◌⊎◌, arith}

-- `n` steps from `s`
pub data Runs {S : Type 0} (Step : S → S → Type 0) (s : S) : ℕ → S → Type 0 where
  here : Runs Step s 0 s
  next : {n : ℕ} {t u : S} → Runs Step s n t → Step t u → Runs Step s (suc n) u

-- Whatever happens from `s` on, it ends after at most `k` steps, and as long as `Done` does not hold,
-- a step that is bound to happen is possible.
pub record Settles {S : Type 0} (Step Bound : S → S → Type 0) (Done : S → Type 0) (k : ℕ) (s : S)
    : Type 0 where
  pub bounded : (n : ℕ) (u : S) → Runs Step s n u → n ≤ k
  pub onward : (n : ℕ) (u : S) → Runs Step s n u → Done u ⊎ ((v : S) × Bound u v)

module _ {S : Type 0} {Step : S → S → Type 0} where
  -- What the steps keep, the runs keep.
  pub Runs-keep :
      (P : S → Type 0)
      → ((t u : S) → Step t u → P t → P u)
      → {s u : S} {n : ℕ} → Runs Step s n u
      → P s
      → P u
  Runs-keep P keep here p = p
  Runs-keep P keep (next {t} {u} r st) p = keep t u st (Runs-keep P keep r p)

  Runs-measure :
      (P : S → Type 0) (measure : S → ℕ)
      → ((t u : S) → Step t u → P t → P u)
      → ((t u : S) → Step t u → P t → measure u < measure t)
      → {s u : S} {n : ℕ} → Runs Step s n u
      → P s
      → n + measure u ≤ measure s
  Runs-measure P measure keep falls here p = omega arith
  Runs-measure P measure keep falls (next {t} {u} r st) p =
      omega (arith, falls t u st (Runs-keep P keep r p), Runs-measure P measure keep falls r p)

  -- A measure that every step makes smaller, and an invariant under which a step is possible.
  pub settles :
      {Bound : S → S → Type 0} {Done : S → Type 0} (P : S → Type 0) (measure : S → ℕ)
      → ((t u : S) → Step t u → P t → P u)
      → ((t u : S) → Step t u → P t → measure u < measure t)
      → ((t : S) → P t → Done t ⊎ ((v : S) × Bound t v))
      → (s : S) → P s
      → Settles Step Bound Done (measure s) s
  settles P measure keep falls on s p = record {
    bounded = λ n u r. omega (arith, Runs-measure P measure keep falls r p);
    onward = λ n u r. on u (Runs-keep P keep r p);
  }
