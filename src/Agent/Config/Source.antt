-- ===== src/Agent/Config/Source.antt =====
-- Where the configuration comes from, agent/config.py: the path of the file and its reading. What YAML
-- makes of a text is an argument, and so is which files there are.
use pc_diagnostic_agent.Prelude.{
  String, Bool, Option, none, some, List, [], ◌∷◌, ◌++◌, if◌then◌else◌, ◌≡◌, refl, ◌==◌, length,
}
use pc_diagnostic_agent.Prelude.Dict.{Dict}
use pc_diagnostic_agent.Common.Paths.{FilePath, join}
use pc_diagnostic_agent.Agent.Config.Load.{Float, Node, RawConfig}
use pc_diagnostic_agent.Agent.Config.Validate.{load_config}

-- The directory that holds a file or a directory; that of the root is the root.
abbrev parent : FilePath → FilePath
parent [] = []
parent (name ∷ path) = path

abbrev beside : Option FilePath → List FilePath
beside none = []
beside (some executable_dir) = join executable_dir "config.yaml" ∷ []

-- The candidates: beside the executable, if the program is frozen, and one and two directories above
-- that of the module.
abbrev candidates : Option FilePath → FilePath → List FilePath
candidates executable_dir here =
    beside executable_dir
    ++ join (parent here) "config.yaml" ∷ join (parent (parent here)) "config.yaml" ∷ []

unfoldable pub first_existing : (FilePath → Bool) → List FilePath → Option FilePath
first_existing exists [] = none
first_existing exists (candidate ∷ rest) =
    let found = first_existing exists rest in if exists candidate then some candidate else found

unfoldable pub default_config_path :
    (FilePath → Bool) → Option FilePath → FilePath → Option FilePath
unfolding first_existing
default_config_path exists executable_dir here =
    first_existing exists (candidates executable_dir here)

-- The reading of the file: there is none, it raises OSError, its bytes are no UTF-8, or it has a text.
pub data Source : Type 0 where
  missing unreadable not_utf8 : Source
  contents : String → Source

-- A document that is no mapping counts as none, and so does a text that is no YAML.
abbrev pub mapping_of : Option (Option (Dict String Node)) → Option (Dict String Node)
mapping_of none = none
mapping_of (some loaded) = loaded

module _ (float_text : String → Option Float)
    (yaml : String → Option (Option (Dict String Node))) where
  -- `load_config` of the file; none where it raises. A UnicodeDecodeError is neither of the two errors
  -- that are caught.
  unfoldable pub load_config_file : Source → Option RawConfig
  load_config_file Source.missing = load_config float_text none
  load_config_file Source.unreadable = load_config float_text none
  load_config_file Source.not_utf8 = none
  load_config_file (Source.contents text) = load_config float_text (mapping_of (yaml text))

-- The second directory above, where the first has no file.
default_config_path_test :
    default_config_path (λ p. length p == 2) none ("agent" ∷ "app" ∷ "C:" ∷ [])
    ≡ some ("config.yaml" ∷ "C:" ∷ [])
unfolding default_config_path first_existing
default_config_path_test = refl
