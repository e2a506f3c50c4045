-- ===== src/Agent/Config/Validate.antt =====
-- `Config.validated` and `load_config`, agent/config.py.
use pc_diagnostic_agent.Prelude.{
  ◌>>=◌, ℕ, ◌+◌, ◌*◌, ◌-◌, ◌^◌, ltb, String, Bool, true, false, not, ◌&&◌, Option, none, some, List,
  [], ◌∷◌, map, any, leb, ◌==◌, if◌then◌else◌,
}
use pc_diagnostic_agent.Prelude.Int.{ℤ, pos, negsuc, leb_ℤ, ◌+ℤ◌}
use pc_diagnostic_agent.Prelude.Dict.{Dict, string_eq}
use pc_diagnostic_agent.Prelude.Text.{codes, same_text}
use pc_diagnostic_agent.Agent.Config.Load.{Float, Scalar, Node, RawConfig, from_dict}

-- The same number in thousandths. `isinstance(True, int)` holds in Python.
abbrev pub thousandths : ℤ → ℤ
thousandths (pos n) = pos (n * 1000)
thousandths (negsuc n) = negsuc (n * 1000 + 999)

abbrev pub number_of : Scalar → Option Float
number_of (Scalar.bool b) = some (Float.finite (if b then pos 1000 else pos 0))
number_of (Scalar.int n) = some (Float.finite (thousandths n))
number_of (Scalar.float t) = some t
number_of _ = none

-- `<=` and `<` of Python, which are both false where a side is nan.
unfoldable pub at_most : Float → Float → Bool
at_most Float.nan b = false
at_most Float.neg_inf Float.nan = false
at_most Float.neg_inf b = true
at_most (Float.finite a) (Float.finite b) = leb_ℤ a b
at_most (Float.finite a) Float.inf = true
at_most (Float.finite a) Float.neg_inf = false
at_most (Float.finite a) Float.nan = false
at_most Float.inf Float.inf = true
at_most Float.inf b = false

unfoldable pub less : Float → Float → Bool
less Float.nan b = false
less Float.inf b = false
less (Float.finite a) (Float.finite b) = not (leb_ℤ b a)
less (Float.finite a) Float.inf = true
less (Float.finite a) b = false
less Float.neg_inf (Float.finite b) = true
less Float.neg_inf Float.inf = true
less Float.neg_inf b = false

abbrev pub is_int : Scalar → Bool
is_int (Scalar.bool b) = true
is_int (Scalar.int n) = true
is_int _ = false

-- Whether a value is a number with a property.
abbrev pub number_with : (Float → Bool) → Scalar → Bool
number_with p s = elim (number_of s) [ none ↦ false | some t ↦ p t ]

-- ALLOWED_INTERVALS, in thousandths; `in` compares 30 and 30.0 as equal.
abbrev pub is_allowed_interval : Float → Bool
is_allowed_interval (Float.finite (pos n)) = any (λ m. m == n) (10000 ∷ 30000 ∷ 60000 ∷ [])
is_allowed_interval _ = false

-- ALLOWED_LOG_LEVELS.
abbrev pub allowed_log_levels : List String
allowed_log_levels = "DEBUG" ∷ "INFO" ∷ "WARNING" ∷ "ERROR" ∷ []

-- `str.upper` of a code point, as far as it can give a letter of the allowed levels.
abbrev pub upper_code : ℕ → ℕ
upper_code c =
    if leb b'a' c && leb c b'z'
    then c - 32
    else if c == 0x131
    then b'I'
    else if c == 0x17f
    then b'S'
    else c

unfoldable pub log_level : String → List String → String
log_level level [] = "INFO"
log_level level (allowed ∷ rest) =
    if same_text (map upper_code (codes level)) (codes allowed)
    then allowed
    else log_level level rest

-- The level: the text in capitals, if that is allowed. No other value prints as a level.
abbrev pub validated_level : Scalar → Scalar
validated_level (Scalar.str level) = Scalar.str (log_level level allowed_log_levels)
validated_level _ = Scalar.str "INFO"

-- `if not …: self.attr = default`.
abbrev pub or_default : Bool → Scalar → Scalar → Scalar
or_default good s default = if good then s else default

abbrev pub plus_ten : Float → Float
plus_ten (Float.finite t) = Float.finite (t +ℤ pos 10000)
plus_ten x = x

-- The temperatures: a critical one that is at most the warning becomes ten more than it.
abbrev pub critical_above : Float → Float → Float
critical_above warning critical = if at_most critical warning then plus_ten warning else critical

-- `validated` once the two `float` calls have been made.
unfoldable pub validated_with : RawConfig → Float → Float → RawConfig
unfolding at_most less
validated_with c warning critical = record c {
  collection_interval_seconds =
      or_default (number_with is_allowed_interval c.collection_interval_seconds)
        c.collection_interval_seconds (Scalar.int (pos 30));
  low_frequency_interval_seconds =
      or_default
        (is_int c.low_frequency_interval_seconds
          && number_with (λ t. not (less t (Float.finite (pos 30000))))
              c.low_frequency_interval_seconds)
        c.low_frequency_interval_seconds (Scalar.int (pos 300));
  retention_hours =
      or_default (number_with (λ t. not (at_most t (Float.finite (pos 0)))) c.retention_hours)
        c.retention_hours (Scalar.int (pos 24));
  incident_window_before_minutes =
      or_default
        (number_with (λ t. not (less t (Float.finite (pos 0)))) c.incident_window_before_minutes)
        c.incident_window_before_minutes (Scalar.int (pos 30));
  incident_window_after_minutes =
      or_default
        (number_with (λ t. not (less t (Float.finite (pos 0)))) c.incident_window_after_minutes)
        c.incident_window_after_minutes (Scalar.int (pos 5));
  temperature_warning_celsius = Scalar.float warning;
  temperature_critical_celsius = Scalar.float (critical_above warning critical);
  logging_level = validated_level c.logging_level;
}

-- From this number on, `float` of an integer raises OverflowError.
unfoldable pub float_limit : ℕ
float_limit = 2 ^ 1024 - 2 ^ 970

abbrev magnitude : ℤ → ℕ
magnitude (pos n) = n
magnitude (negsuc n) = n + 1

-- `float_text` is what `float` makes of a text, none where it raises.
module _ (float_text : String → Option Float) where
  -- `float(x)`, none where it raises.
  abbrev pub float_of : Scalar → Option Float
  float_of (Scalar.str s) = float_text s
  float_of Scalar.null = none
  float_of Scalar.other = none
  float_of (Scalar.int n) =
      if ltb (magnitude n) float_limit then some (Float.finite (thousandths n)) else none
  float_of (Scalar.bool b) = number_of (Scalar.bool b)
  float_of (Scalar.float t) = some t

  -- `validated`: none where a `float` call raises.
  unfoldable pub validated : RawConfig → Option RawConfig
  validated c = do
    warning ← float_of c.temperature_warning_celsius
    critical ← float_of c.temperature_critical_celsius
    some (validated_with c warning critical)

  -- `load_config`: what `yaml.safe_load` gives, none where there is no file, it cannot be read, it is no
  -- YAML, or the document is no mapping.
  unfoldable pub load_config : Option (Dict String Node) → Option RawConfig
  load_config none = validated (from_dict [])
  load_config (some loaded) = validated (from_dict loaded)
