-- ===== src/Agent/Config/Sound.antt =====
-- What a loaded configuration is good for, agent/config.py.
use pc_diagnostic_agent.Prelude.{
  zero, suc, leb, ◌≡◌, Bool, true, false, not, ◌&&◌, Option, none, some, any,
}
use pc_diagnostic_agent.Prelude.Int.{pos, negsuc, leb_ℤ}
use pc_diagnostic_agent.Prelude.Dict.{Dict, string_eq}
use text.Mathlib.Text.{◌==◌ as str_eq}
use pc_diagnostic_agent.Agent.Config.Load.{Float, Scalar, RawConfig}
use pc_diagnostic_agent.Agent.Config.Validate.{
  number_with, is_allowed_interval, allowed_log_levels, less,
}

abbrev is_level : Scalar → Bool
is_level (Scalar.str s) = any (λ a. str_eq s a) allowed_log_levels
is_level _ = false

-- A positive number, or nan; and one that is not negative, or nan.
abbrev pub is_positive : Float → Bool
is_positive (Float.finite (pos zero)) = false
is_positive (Float.finite (pos (suc n))) = true
is_positive (Float.finite (negsuc n)) = false
is_positive Float.inf = true
is_positive Float.neg_inf = false
is_positive Float.nan = true

abbrev pub is_natural : Float → Bool
is_natural (Float.finite (pos n)) = true
is_natural (Float.finite (negsuc n)) = false
is_natural Float.inf = true
is_natural Float.neg_inf = false
is_natural Float.nan = true

abbrev pub is_30_or_more : Float → Bool
is_30_or_more (Float.finite (pos n)) = leb 30000 n
is_30_or_more _ = false

-- A finite warning is below the critical temperature, which may be nan.
abbrev pub is_below : Float → Float → Bool
is_below (Float.finite a) (Float.finite b) = not (leb_ℤ b a)
is_below (Float.finite a) Float.neg_inf = false
is_below _ _ = true

abbrev pub are_below : Scalar → Scalar → Bool
are_below (Scalar.float a) (Scalar.float b) = is_below a b
are_below _ _ = false

-- The bounds that a validated configuration keeps.
pub record IsSound (c : RawConfig) : Type 0 where
  pub interval : number_with is_allowed_interval c.collection_interval_seconds ≡ true
  pub low_interval : number_with is_30_or_more c.low_frequency_interval_seconds ≡ true
  pub retention : number_with is_positive c.retention_hours ≡ true
  pub before : number_with is_natural c.incident_window_before_minutes ≡ true
  pub after : number_with is_natural c.incident_window_after_minutes ≡ true
  pub critical : are_below c.temperature_warning_celsius c.temperature_critical_celsius ≡ true
  pub level : is_level c.logging_level ≡ true

and_right : (a b : Bool) → (a && b) ≡ true → b ≡ true
and_right true b h = h
and_right false b h = cc

abbrev slow : Float → Bool
slow t = not (less t (Float.finite (pos 30000)))

-- What holds of a configuration if there is one.
abbrev pub IfLoaded : (RawConfig → Type 0) → Option RawConfig → Type 0
IfLoaded P none = Unit
IfLoaded P (some c) = P c
