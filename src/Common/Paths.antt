-- ===== src/Common/Paths.antt =====
-- The paths of the agent's files, common/paths.py. A path is an absolute one, as `abspath` gives it: the
-- list of its components, the last one first.
use pc_diagnostic_agent.Prelude.{
  String, Bool, true, false, List, [], ◌∷◌, Option, none, some, ◌&&◌, ◌≡◌, ◌↔◌, refl, arith,
}
use text.Mathlib.Text.{◌==◌ as str_eq}
use text.Mathlib.TextEquality.{eq_iff}
use pc_diagnostic_agent.Prelude.Dict.{Eq}

abbrev pub FilePath : Type 0
FilePath = List String

-- `os.path.join` with one component.
abbrev pub join : FilePath → String → FilePath
join path name = name ∷ path

unfoldable pub same_path : FilePath → FilePath → Bool
same_path [] [] = true
same_path [] (b ∷ q) = false
same_path (a ∷ p) [] = false
same_path (a ∷ p) (b ∷ q) = str_eq a b && same_path p q

pub same_path_iff : (p q : FilePath) → (same_path p q ≡ true) ↔ (p ≡ q)
unfolding same_path
same_path_iff [] [] = (λ h. refl, λ h. refl)
same_path_iff [] (b ∷ q) = (λ h. cc, λ h. cc)
same_path_iff (a ∷ p) [] = (λ h. cc, λ h. cc)
same_path_iff (a ∷ p) (b ∷ q) = ground (arith, eq_iff a b, same_path_iff p q)

instance abbrev pub path_eq : Eq FilePath
path_eq = record { beq = same_path; beq_iff = same_path_iff }

-- `_data_root`: PCDIAG_HOME, if it is set and not empty, else a directory of the system or of the user.
abbrev pub data_root : Option FilePath → Bool → FilePath → FilePath
data_root (some override) win32 home = override
data_root none true home = "PCDiagnosticAgent" ∷ "ProgramData" ∷ "C:" ∷ []
data_root none false home = join home ".pcdiagnosticagent"

abbrev pub data_dir : FilePath → FilePath
data_dir root = join root "data"

abbrev pub test_data_dir : FilePath → FilePath
test_data_dir root = join root "test-data"

abbrev pub logs_dir : FilePath → FilePath
logs_dir root = join root "logs"

abbrev pub reports_dir : FilePath → FilePath
reports_dir root = join root "reports"

abbrev pub database_path : FilePath → FilePath
database_path root = join (data_dir root) "agent.db"

abbrev pub log_file_path : FilePath → FilePath
log_file_path root = join (logs_dir root) "agent.log"

abbrev pub heartbeat_file_path : FilePath → FilePath
heartbeat_file_path root = join (data_dir root) "heartbeat.txt"

-- `ensure_directories`: the directories that are made.
abbrev pub ensure_directories : FilePath → List FilePath
ensure_directories root = data_dir root ∷ logs_dir root ∷ reports_dir root ∷ []
