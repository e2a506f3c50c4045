-- ===== src/Examples/Configs.antt =====
-- The theorems on the configuration at concrete documents: agent/config.py.
use pc_diagnostic_agent.Prelude.{
  ◌≡◌, refl, String, ◌&&◌, Option, none, some, List, [], ◌∷◌, is_some, inl,
}
use pc_diagnostic_agent.Prelude.Int.{pos}
use pc_diagnostic_agent.Prelude.Dict.{Dict, get, string_eq}
use pc_diagnostic_agent.Agent.Config.Load.{
  Float, Scalar, Node, RawConfig, raw_default, present, section,
}
use pc_diagnostic_agent.Agent.Config.Validate.{float_of, load_config}
use pc_diagnostic_agent.Agent.Config.Raises.{load_config-null}

-- A `float` that reads no text.
abbrev no_text : String → Option Float
no_text s = none

-- An interval that is not allowed, and a level in small letters.
abbrev odd : Dict String Node
odd =
    ("collection_interval_seconds", Node.scalar (Scalar.int (pos 17)))
    ∷ ("logging", Node.mapping (("level", Scalar.str "debug") ∷ []))
    ∷ []

-- `warning_celsius:` with nothing behind it.
abbrev null_temperature : Dict String Node
null_temperature = ("temperature", Node.mapping (("warning_celsius", Scalar.null) ∷ [])) ∷ []

default_test : load_config no_text none ≡ some raw_default
unfolding load_config pc_diagnostic_agent.Agent.Config.Validate.validated
    pc_diagnostic_agent.Agent.Config.Load.from_dict present get section
    pc_diagnostic_agent.Agent.Config.Validate.validated_with
    pc_diagnostic_agent.Agent.Config.Load.top_level pc_diagnostic_agent.Agent.Config.Load.threshold
    pc_diagnostic_agent.Agent.Config.Validate.log_level pc_diagnostic_agent.Prelude.Text.same_text
default_test = refl

odd_test :
    load_config no_text (some odd)
    ≡ some (record raw_default { logging_level = Scalar.str "DEBUG" })
unfolding load_config pc_diagnostic_agent.Agent.Config.Validate.validated
    pc_diagnostic_agent.Agent.Config.Load.from_dict present get section
    pc_diagnostic_agent.Agent.Config.Validate.validated_with
    pc_diagnostic_agent.Agent.Config.Load.top_level pc_diagnostic_agent.Agent.Config.Load.threshold
    pc_diagnostic_agent.Agent.Config.Validate.log_level pc_diagnostic_agent.Prelude.Text.same_text
odd_test = refl

null_test : load_config no_text (some null_temperature) ≡ none
unfolding load_config pc_diagnostic_agent.Agent.Config.Validate.validated
    pc_diagnostic_agent.Agent.Config.Load.from_dict present get section
null_test = refl

abbrev empty_warning : Dict String Scalar
empty_warning = ("warning_celsius", Scalar.null) ∷ []

null_found : get empty_warning "warning_celsius" ≡ some Scalar.null
unfolding get
null_found = refl

found :
    get null_temperature "temperature" ≡ some (Node.mapping (("warning_celsius", Scalar.null) ∷ []))
unfolding get
found = refl

load_config-null_example : load_config no_text (some null_temperature) ≡ none
load_config-null_example =
    load_config-null no_text null_temperature empty_warning found (inl null_found)
