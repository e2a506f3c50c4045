-- ===== src/Agent/Config/Raises.antt =====
-- When no configuration is loaded, agent/config.py.
use pc_diagnostic_agent.Prelude.{
  ap, ◌∙◌, sym, ◌⊎◌, ◌>>=◌, ◌≡◌, refl, String, Option, none, some, inl, inr,
}
use mathlib.Core.Option.{none-ne-some}
use pc_diagnostic_agent.Prelude.Int.{pos}
use pc_diagnostic_agent.Prelude.Dict.{Dict, get, string_eq}
use pc_diagnostic_agent.Agent.Config.Load.{
  Float, Scalar, Node, RawConfig, from_dict, present, section,
}
use pc_diagnostic_agent.Agent.Config.Validate.{float_of, validated, load_config}

no_number :
    (a b : Option Float) (f : Float → Float → RawConfig)
    → (a ≡ none) ⊎ (b ≡ none)
    → (a >>= λ x. b >>= λ y. some (f x y)) ≡ none
no_number none b f h = refl
no_number (some x) none f h = refl
no_number (some x) (some y) f (inl h) = absurd (none-ne-some x (sym h))
no_number (some x) (some y) f (inr h) = absurd (none-ne-some y (sym h))

section_found :
    (d : Dict String Node) (key : String) (found : Dict String Scalar)
    → get d key ≡ some (Node.mapping found)
    → section d key ≡ found
unfolding section
section_found d key found h = rw (section, h) refl

present_null :
    (loaded : Dict String Scalar) (key : String) (old : Scalar)
    → get loaded key ≡ some Scalar.null
    → present loaded key old ≡ Scalar.null
unfolding present
present_null loaded key old h = rw (present, h) refl

-- A file in which the warning or the critical temperature is null, as where nothing stands behind the key,
-- prevents the start: the loading raises, whatever else the file holds.
pub load_config-null :
    (float_text : String → Option Float) (d : Dict String Node) (temperature : Dict String Scalar)
    → get d "temperature" ≡ some (Node.mapping temperature)
    → (get temperature "warning_celsius" ≡ some Scalar.null)
      ⊎ (get temperature "critical_celsius" ≡ some Scalar.null)
    → load_config float_text (some d) ≡ none
unfolding load_config validated from_dict
load_config-null float_text d temperature h null =
    let raises = λ (key : String) (old : Scalar) (e : get temperature key ≡ some Scalar.null).
      ap (λ t. float_of float_text (present t key old))
        (section_found d "temperature" temperature h)
      ∙ ap (float_of float_text) (present_null temperature key old e) in
    no_number (float_of float_text (from_dict d).temperature_warning_celsius)
      (float_of float_text (from_dict d).temperature_critical_celsius) _
      (elim null [
        | inl e ↦ inl (raises "warning_celsius" (Scalar.float (Float.finite (pos 85000))) e)
        | inr e ↦ inr (raises "critical_celsius" (Scalar.float (Float.finite (pos 95000))) e)
      ])
