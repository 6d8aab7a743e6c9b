-- ===== src/App/Logging.antt =====
-- app.go: `New` and `initLogging`, with the logger of internal/ctrl/ctrl.go: which level it has. A level is an int8, of which those of zap go from -1
-- to 5; a message of verbosity `n` has the level -n, and it is logged if this is not below the level
-- of the logger.
use ohttp_relay.Prelude.{
  ℕ, zero, suc, ◌+◌, ◌-◌, ◌%◌, ◌<◌, ◌≡◌, refl, ◌↔◌, false, ℤ, pos, negsuc, ltb, ltb_ℤ, arith,
  if◌then◌else◌,
}
use ohttp_relay.Text.{Text, codes}
use ohttp_relay.Fault.{Result, ok, err}
use ohttp_relay.Config.{Config}

-- -1 * v
unfoldable pub negated : ℤ → ℤ
negated (pos zero) = pos 0
negated (pos (suc n)) = negsuc n
negated (negsuc n) = pos (n + 1)

abbrev signed8 : ℕ → ℤ
signed8 w = if ltb w 128 then pos w else negsuc (255 - w)

-- int8(v)
unfoldable pub int8 : ℤ → ℤ
int8 (pos n) = signed8 (n % 256)
int8 (negsuc n) = signed8 (255 - n % 256)

-- the level that `initLogging` sets
unfoldable pub log_level : ℤ → ℤ
unfolding negated int8
log_level verbosity = int8 (negated verbosity)

signed8-pos : (w n : ℕ) → w < 256 → (signed8 w ≡ pos n) ↔ ((w ≡ n) × (n < 128))
signed8-pos w n h = ground arith

signed8-negsuc : (w n : ℕ) → w < 256 → (signed8 w ≡ negsuc n) ↔ ((w + n ≡ 255) × (n < 128))
signed8-negsuc w n h = ground arith

level_iff :
    (v : ℤ)
    → (log_level v ≡ negated v) ↔ ((ltb_ℤ (pos 128) v ≡ false) × (ltb_ℤ v (negsuc 126) ≡ false))
unfolding log_level negated int8
level_iff (pos zero) = ground arith
level_iff (pos (suc n)) = ground (arith, signed8-negsuc (255 - n % 256) n (omega arith))
level_iff (negsuc n) = ground (arith, signed8-pos ((n + 1) % 256) (n + 1) (omega arith))

-- The level is the negated verbosity exactly for the verbosities from -127 to 128.
log_level_iff :
    (cfg : Config)
    → (log_level cfg.log_verbosity ≡ negated cfg.log_verbosity) ↔ (
        (ltb_ℤ (pos 128) cfg.log_verbosity ≡ false)
        × (ltb_ℤ cfg.log_verbosity (negsuc 126) ≡ false))
log_level_iff cfg = level_iff cfg.log_verbosity

-- ctrl.SetLogger and ctrl.FromContext, with `log` as the value of ctrl.Log
unfoldable pub set_logger : {L : Type 0} → L → L → L
set_logger l log = l

unfoldable pub from_context : {L : Type 0} → L → L
from_context log = log

-- What is called of the libraries: Build of a configuration of zap with this level, zap's logger that
-- logs nothing, logr's logger that discards, which ctrl.Log is at first, and WithName.
pub record Loggers (L : Type 0) : Type 0 where
  pub build : ℤ → Result L
  pub nop : L
  pub discard : L
  pub with_name : Text → L → L

pub record App (L : Type 0) : Type 0 where
  pub cfg : Config
  pub logger : L

module _ {L : Type 0} (lib : Loggers L) where
  -- initLogging, which leaves a value of ctrl.Log
  unfoldable pub init_logging : ℤ → L → L
  unfolding log_level set_logger
  init_logging verbosity log = elim (lib.build (log_level verbosity)) [
    | ok zl ↦ set_logger zl log
    | err e ↦ set_logger lib.nop log
  ]

  -- New
  unfoldable pub new : Config → L → App L × L
  unfolding init_logging from_context
  new cfg log =
      let log' = init_logging cfg.log_verbosity log in
      (record { cfg = cfg; logger = lib.with_name (codes "app") log' }, log')

  new-eq :
      (cfg : Config) (log : L) {zl : L}
      → lib.build (log_level cfg.log_verbosity) ≡ ok zl
      → new cfg log ≡ (record { cfg = cfg; logger = lib.with_name (codes "app") zl }, zl)
  unfolding new init_logging set_logger
  new-eq cfg log built = rw (new, init_logging, built) refl

  -- If zap builds a logger of the level that it is given, and WithName keeps the level, then the logger
  -- of a new App has the negated verbosity as its level exactly for the verbosities from -127 to 128, and
  -- the logger that FromContext gives from then on has the same level.
  pub new-level :
      (level : L → ℤ)
      → ((v : ℤ) → (l : L) × (lib.build v ≡ ok l) × (level l ≡ v))
      → ((name : Text) (l : L) → level (lib.with_name name l) ≡ level l)
      → (cfg : Config) (log : L)
      → let (app, log') = new cfg log in
        ((level app.logger ≡ negated cfg.log_verbosity) ↔ (
          (ltb_ℤ (pos 128) cfg.log_verbosity ≡ false)
          × (ltb_ℤ cfg.log_verbosity (negsuc 126) ≡ false)))
        × (level (from_context log') ≡ level app.logger)
  unfolding from_context
  new-level level builds keeps cfg log =
      let (zl, built, leveled) = builds (log_level cfg.log_verbosity) in
      rw (new-eq cfg log built, keeps (codes "app") zl, leveled) (log_level_iff cfg, refl)
