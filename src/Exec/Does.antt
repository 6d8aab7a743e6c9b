-- ===== src/Exec/Does.antt =====
-- What an action does in a given world: the effects that it adds to a trace satisfy `M` after this
-- trace, which composes, and its result satisfies `Q`. There is one rule for each way to build an action. Mostly
-- `M` says that all effects satisfy a `P`.
use ohttp_relay.Prelude.{
  ◌≡◌, refl, sym, ap, ◌∙◌, Bool, true, false, [], ◌∷◌, ◌++◌, append-nil, append_assoc, All,
  All-append, if◌then◌else◌,
}
use mathlib.Core.Path.{subst}
use ohttp_relay.Exec.{Effect, Trace, Env, Exec, pure, ask, perform, emit, ◌>>=◌}

pub record Composes (M : Trace → Trace → Type 0) : Type 0 where
  pub nothing : (t : Trace) → M t []
  pub both : (t s s' : Trace) → M t s → M (t ++ s) s' → M t (s ++ s')

instance abbrev pub All-Composes : {P : Effect → Type 0} → Composes (λ t. All P)
All-Composes {P} = record { nothing = λ t. tt; both = λ t. All-append P }

pub record Adds {A : Type 0} (env : Env) (M : Trace → Trace → Type 0) (Q : A → Type 0) (m : Exec A)
    : Type 0 where
  pub at : (t : Trace) → (s : Trace) × ((m env t).1 ≡ t ++ s) × M t s × Q (m env t).0

-- each effect satisfies `P`
abbrev pub Does : {A : Type 0} → Env → (Effect → Type 0) → (A → Type 0) → Exec A → Type 0
Does env P Q m = Adds env (λ t. All P) Q m

-- the result is not restricted
abbrev pub Any : {A : Type 0} → A → Type 0
Any a = Unit

module _ {env : Env} {M : Trace → Trace → Type 0} ⦃c : Composes M⦄ {A : Type 0}
    {Q : A → Type 0} where
  pub Adds-pure : (a : A) → Q a → Adds env M Q (pure a)
  unfolding pure
  Adds-pure a q = record { at = λ t. ([], sym (append-nil t), c.nothing t, q) }

  pub Adds-ask : (f : Env → Trace → A) → ((t : Trace) → Q (f env t)) → Adds env M Q (ask f)
  unfolding ask
  Adds-ask f q = record { at = λ t. ([], sym (append-nil t), c.nothing t, q t) }

module _ {env : Env} {M : Trace → Trace → Type 0} {A : Type 0} {Q : A → Type 0} where
  pub Adds-perform :
      (e : Effect) (f : Env → Trace → A)
      → ((t : Trace) → M t (e ∷ []))
      → ((t : Trace) → Q (f env t))
      → Adds env M Q (perform e f)
  unfolding perform
  Adds-perform e f p q = record { at = λ t. (e ∷ [], refl, p t, q t) }

  pub Adds-if :
      (b : Bool) {m n : Exec A}
      → (b ≡ true → Adds env M Q m)
      → (b ≡ false → Adds env M Q n)
      → Adds env M Q (if b then m else n)
  Adds-if true dm dn = dm refl
  Adds-if false dm dn = dn refl

  pub Adds-weaken :
      {m : Exec A} {R : A → Type 0} → Adds env M R m → ((a : A) → R a → Q a) → Adds env M Q m
  Adds-weaken d w = record { at = λ t. let (s, e, p, r) = d.at t in (s, e, p, w _ r) }

module _ {env : Env} {M : Trace → Trace → Type 0} ⦃c : Composes M⦄ {A B : Type 0} {Q : A → Type 0}
    {R : B → Type 0} where
  pub Adds-bind :
      {m : Exec A} {f : A → Exec B}
      → Adds env M Q m
      → ((a : A) → Q a → Adds env M R (f a))
      → Adds env M R (m >>= f)
  unfolding ◌>>=◌
  Adds-bind {m} {f} dm df = record {
    at = λ t.
        let (s, e, p, q) = dm.at t in
        let (s', e', p', r) = (df (m env t).0 q).at (m env t).1 in
        (
          s ++ s',
          e' ∙ ap (λ (v : Trace). v ++ s') e ∙ append_assoc t s s',
          c.both t s s' p (subst (λ (v : Trace). M v s') e p'),
          r,
        );
  }

pub Adds-emit :
    {env : Env} {M : Trace → Trace → Type 0} (e : Effect)
    → ((t : Trace) → M t (e ∷ []))
    → Adds env M Any (emit e)
Adds-emit e p = Adds-perform e (λ _ _. tt) p (λ _. tt)

-- the rules for all effects
module _ {env : Env} {P : Effect → Type 0} {A : Type 0} {Q : A → Type 0} where
  pub Does-pure : (a : A) → Q a → Does env P Q (pure a)
  Does-pure a q = Adds-pure a q

  pub Does-ask : (f : Env → Trace → A) → ((t : Trace) → Q (f env t)) → Does env P Q (ask f)
  Does-ask f q = Adds-ask f q

  pub Does-perform :
      (e : Effect) (f : Env → Trace → A)
      → P e
      → ((t : Trace) → Q (f env t))
      → Does env P Q (perform e f)
  Does-perform e f p q = Adds-perform e f (λ t. (p, tt)) q

  pub Does-if :
      (b : Bool) {m n : Exec A}
      → (b ≡ true → Does env P Q m)
      → (b ≡ false → Does env P Q n)
      → Does env P Q (if b then m else n)
  Does-if b dm dn = Adds-if b dm dn

  pub Does-weaken :
      {m : Exec A} {R : A → Type 0} → Does env P R m → ((a : A) → R a → Q a) → Does env P Q m
  Does-weaken d w = Adds-weaken d w

module _ {env : Env} {P : Effect → Type 0} {A B : Type 0} {Q : A → Type 0} {R : B → Type 0} where
  pub Does-bind :
      {m : Exec A} {f : A → Exec B}
      → Does env P Q m
      → ((a : A) → Q a → Does env P R (f a))
      → Does env P R (m >>= f)
  Does-bind dm df = Adds-bind dm df

pub Does-emit : {env : Env} {P : Effect → Type 0} (e : Effect) → P e → Does env P Any (emit e)
Does-emit e p = Adds-emit e (λ t. (p, tt))

-- A set of effects in a set of traces.
pub Does-Adds :
    {env : Env} {P : Effect → Type 0} {M : Trace → Trace → Type 0} {A : Type 0} {Q : A → Type 0}
    {m : Exec A}
    → ((t s : Trace) → All P s → M t s)
    → Does env P Q m
    → Adds env M Q m
Does-Adds w d = record { at = λ t. let (s, e, p, q) = d.at t in (s, e, w t s p, q) }
