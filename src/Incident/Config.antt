-- ===== src/Incident/Config.antt =====
-- The breaker's configuration (frontend/lib/incident-response.ts). `Number(raw)` followed by
-- `Number.isInteger` is a parameter, a reading of texts as integers: what is proved holds for any.
use joint_save.Prelude.{
  ℕ, String, Bool, true, false, not, ◌||◌, Option, none, some, ◌*◌, ◌≤◌, ◌≡◌, ◌↔◌, arith,
  if◌then◌else◌, eq_iff, Option-cases, inl, inr,
}
use joint_save.Prelude.Int.{ℤ, pos, pos_part, ltb_ℤ}
use joint_save.Prelude.Text.{str_eq, trim}

pub record IncidentConfig : Type 0 where
  pub critical_threshold : ℕ
  pub threshold_window_ms : ℕ
  pub cooldown_window_ms : ℕ
  pub max_pauses_per_window : ℕ
  pub dry_run : Bool

abbrev pub default_incident_config : IncidentConfig
default_incident_config = record {
  critical_threshold = 2;
  threshold_window_ms = 60 * 60 * 1000;
  cooldown_window_ms = 24 * 60 * 60 * 1000;
  max_pauses_per_window = 1;
  dry_run = true;
}

pub record Bounds : Type 0 where
  pub min : ℕ
  pub max : ℕ

-- `LIMITS`, one constant for each of its entries
abbrev pub critical_threshold_limits : Bounds
critical_threshold_limits = record { min = 1; max = 100 }

abbrev pub threshold_window_limits : Bounds
threshold_window_limits = record { min = 60_000; max = 7 * 24 * 60 * 60 * 1000 }

abbrev pub cooldown_window_limits : Bounds
cooldown_window_limits = record { min = 60_000; max = 30 * 24 * 60 * 60 * 1000 }

abbrev pub max_pauses_limits : Bounds
max_pauses_limits = record { min = 1; max = 50 }

-- the environment variables that are read
pub record IncidentEnv : Type 0 where
  pub critical_threshold : Option String
  pub threshold_window_ms : Option String
  pub cooldown_window_ms : Option String
  pub max_pauses_per_window : Option String
  pub auto_pause_enabled : Option String

module _ (integer_of : String → Option ℤ) where
  unfoldable pub read_int : Option String → ℕ → Bounds → ℕ
  read_int none fallback b = fallback
  read_int (some raw) fallback b =
      if str_eq (trim raw) "" then fallback else elim (integer_of raw) [
        | none ↦ fallback
        | some parsed ↦
            if ltb_ℤ parsed (pos b.min) || ltb_ℤ (pos b.max) parsed
            then fallback
            else pos_part parsed
      ]

  abbrev is_text : Option String → String → Bool
  is_text none s = false
  is_text (some t) s = str_eq t s

  unfoldable pub load_incident_config : IncidentEnv → IncidentConfig
  load_incident_config env = record {
    critical_threshold =
        read_int env.critical_threshold default_incident_config.critical_threshold
          critical_threshold_limits;
    threshold_window_ms =
        read_int env.threshold_window_ms default_incident_config.threshold_window_ms
          threshold_window_limits;
    cooldown_window_ms =
        read_int env.cooldown_window_ms default_incident_config.cooldown_window_ms
          cooldown_window_limits;
    max_pauses_per_window =
        read_int env.max_pauses_per_window default_incident_config.max_pauses_per_window
          max_pauses_limits;
    dry_run = not (is_text env.auto_pause_enabled "true");
  }

  -- The number read lies within the bounds, or is the fallback.
  read_int_bounds :
      (raw : Option String) (fallback : ℕ) (b : Bounds)
      → b.min ≤ fallback
      → fallback ≤ b.max
      → (b.min ≤ read_int raw fallback b) × (read_int raw fallback b ≤ b.max)
  unfolding read_int
  read_int_bounds raw fallback b lo hi = ground arith

  abbrev pub Within : Bounds → ℕ → Type 0
  Within b n = (b.min ≤ n) × (n ≤ b.max)

  -- Whatever the environment holds, each number of the configuration lies within its limits, so
  -- that the threshold, the windows and the allowance can be neither switched off nor unbounded.
  load_incident_config_bounds :
      (env : IncidentEnv)
      → let c = load_incident_config env in
        Within critical_threshold_limits c.critical_threshold
        × Within threshold_window_limits c.threshold_window_ms
        × Within cooldown_window_limits c.cooldown_window_ms
        × Within max_pauses_limits c.max_pauses_per_window
  unfolding load_incident_config
  load_incident_config_bounds env = (
    read_int_bounds env.critical_threshold 2 critical_threshold_limits (omega arith) (omega arith),
    read_int_bounds env.threshold_window_ms (60 * 60 * 1000) threshold_window_limits (omega arith)
        (omega arith),
    read_int_bounds env.cooldown_window_ms (24 * 60 * 60 * 1000) cooldown_window_limits
        (omega arith) (omega arith),
    read_int_bounds env.max_pauses_per_window 1 max_pauses_limits (omega arith) (omega arith),
  )

  -- The breaker is armed exactly when the variable INCIDENT_AUTO_PAUSE_ENABLED is the text "true".
  load_incident_config-armed_iff :
      (env : IncidentEnv)
      → ((load_incident_config env).dry_run ≡ false) ↔ (env.auto_pause_enabled ≡ some "true")
  unfolding load_incident_config
  load_incident_config-armed_iff env = elim (Option-cases env.auto_pause_enabled) [
    | inl e ↦ ground arith
    | inr (t, e) ↦ ground (arith, eq_iff t "true")
  ]
