-- ===== src/Fault.antt =====
-- Go's error values. An error is a sentinel, or a format with its arguments: the text is not
-- rendered, so an argument of %q or %v keeps its value. `wrapped` is the argument of a %w.
-- `status` is an error of package grpc/status with its code; it wraps nothing.
use ohttp_relay.Prelude.{ℕ, ◌≡◌, refl, Bool, true, false, ◌||◌}
use ohttp_relay.Text.{Text}

-- relay.ErrNoGateway, and the sentinels of the libraries that the relay tests for.
pub data Sentinel : Type 0 where
  no_gateway redis_nil canceled end_of_file server_stopped server_closed : Sentinel

mutual
  pub data Error : Type 0 where
    sentinel : Sentinel → Error
    message : Text → Args → Error
    status : ℕ → Text → Args → Error

  pub data Args : Type 0 where
    end : Args
    text : Text → Args → Args
    number : ℕ → Args → Args
    shown : Error → Args → Args
    wrapped : Error → Args → Args

pub data Result {ℓ} (A : Type ℓ) : Type ℓ where
  ok : A → Result A
  err : Error → Result A

abbrev pub same_sentinel : Sentinel → Sentinel → Bool
same_sentinel no_gateway no_gateway = true
same_sentinel redis_nil redis_nil = true
same_sentinel canceled canceled = true
same_sentinel end_of_file end_of_file = true
same_sentinel server_stopped server_stopped = true
same_sentinel server_closed server_closed = true
same_sentinel _ _ = false

-- errors.Is(e, s): through every %w.
unfoldable mutual
  pub is : Sentinel → Error → Bool
  is s (sentinel t) = same_sentinel t s
  is s (message f args) = is_in s args
  is s (status code f args) = false

  pub is_in : Sentinel → Args → Bool
  is_in s end = false
  is_in s (text t args) = is_in s args
  is_in s (number n args) = is_in s args
  is_in s (shown e args) = is_in s args
  is_in s (wrapped e args) = is s e || is_in s args

-- e == s, with no unwrapping.
abbrev pub equals : Sentinel → Error → Bool
equals s (sentinel t) = same_sentinel t s
equals s (message f args) = false
equals s (status code f args) = false

-- codes.Unknown
abbrev pub unknown : ℕ
unknown = 2

abbrev pub bind {ℓ κ} : {A : Type ℓ} {B : Type κ} → Result A → (A → Result B) → Result B
bind (ok a) f = f a
bind (err e) f = err e

-- A chain that ends well has gone well at each step.
pub bind-eq-ok {ℓ κ} :
    {A : Type ℓ} {B : Type κ} (m : Result A) (f : A → Result B) {b : B}
    → bind m f ≡ ok b
    → (a : A) × (m ≡ ok a) × (f a ≡ ok b)
bind-eq-ok (ok a) f h = (a, refl, h)
bind-eq-ok (err e) f h = cc
