-- ===== src/Diagnostics/EventAnalyzer/Classify.antt =====
-- `classify_event` and its helpers, diagnostics/event_analyzer.py.
use pc_diagnostic_agent.Prelude.{
  ℕ, String, Bool, false, ◌&&◌, ◌||◌, Option, none, some, List, [], ◌∷◌, ◌==◌, if◌then◌else◌, any,
}
use pc_diagnostic_agent.Prelude.Int.{low16}
use pc_diagnostic_agent.Prelude.Text.{codes, lower, strip, contains, same_text}
use pc_diagnostic_agent.Storage.Rows.{RawId, EventFields}
use pc_diagnostic_agent.Diagnostics.EventAnalyzer.Category.{
  Category, kernel_power, bugcheck, whea, disk, display, shutdown_clean, shutdown_unexpected,
  service_control, other,
}

abbrev pub kernel_power_providers : List String
kernel_power_providers = "Microsoft-Windows-Kernel-Power" ∷ "Kernel-Power" ∷ []

abbrev pub bugcheck_providers : List String
bugcheck_providers =
    "Microsoft-Windows-WER-SystemErrorReporting" ∷ "BugCheck"
    ∷ "Microsoft-Windows-WER-SystemErrorReporting " ∷ []

abbrev pub whea_providers : List String
whea_providers = "Microsoft-Windows-WHEA-Logger" ∷ "WHEA-Logger" ∷ []

abbrev pub disk_providers : List String
disk_providers = "disk" ∷ "ntfs" ∷ "storahci" ∷ "stornvme" ∷ "iaStor" ∷ "msahci" ∷ []

abbrev pub display_providers : List String
display_providers =
    "display" ∷ "dxgkrnl" ∷ "nvlddmkm" ∷ "amdkmdag" ∷ "igfx" ∷ "igdkmd64" ∷ "igfxCUIService"
    ∷ "aticfx64" ∷ []

abbrev pub disk_error_event_ids : List ℕ
disk_error_event_ids = 7 ∷ 9 ∷ 11 ∷ 15 ∷ 51 ∷ 52 ∷ 55 ∷ 98 ∷ 129 ∷ 140 ∷ 153 ∷ 157 ∷ []

abbrev pub shutdown_clean_ids : List ℕ
shutdown_clean_ids = 6006 ∷ 1074 ∷ []

abbrev pub shutdown_unexpected_ids : List ℕ
shutdown_unexpected_ids = 6008 ∷ []

-- `x or ""`.
abbrev pub or_empty : Option String → List ℕ
or_empty none = []
or_empty (some s) = codes s

unfoldable pub provider_text : EventFields → List ℕ
unfolding strip
provider_text ev = strip (or_empty ev.provider)

unfoldable pub contains_any : List ℕ → List String → Bool
unfolding lower contains
contains_any text needles =
    let low = lower text in any (λ needle. contains (lower (codes needle)) low) needles

-- The low 16 bits, or nothing where there is no number.
unfoldable pub event_id : EventFields → Option ℕ
unfolding low16
event_id ev = elim ev.event_id [
  | RawId.absent ↦ none
  | RawId.int n ↦ some (low16 n)
  | RawId.not_an_int ↦ none
]

-- `event_id_value in ids`; no set holds None.
abbrev pub id_in : Option ℕ → List ℕ → Bool
id_in none ids = false
id_in (some n) ids = any (λ i. i == n) ids

-- The tests of the chain, over what it reads of an event.
unfoldable pub is_kernel_power : List ℕ → Option ℕ → Bool
is_kernel_power provider id =
    id_in id (41 ∷ [])
    && (contains_any provider kernel_power_providers || same_text provider (codes "EventLog"))

unfoldable pub is_bugcheck : List ℕ → Option ℕ → List ℕ → Bool
is_bugcheck provider id message =
    contains_any provider bugcheck_providers
    || (id_in id (1001 ∷ []) && contains (codes "bugcheck") message)

unfoldable pub is_whea : List ℕ → Bool
is_whea provider = contains_any provider whea_providers || contains (codes "whea") (lower provider)

unfoldable pub is_disk : List ℕ → Option ℕ → Bool
is_disk provider id = contains_any provider disk_providers && id_in id disk_error_event_ids

unfoldable pub is_display : List ℕ → Bool
is_display provider = contains_any provider display_providers

unfoldable pub is_service_control : List ℕ → Bool
is_service_control provider = same_text provider (codes "Service Control Manager")

-- The chain.
unfoldable pub classify : List ℕ → Option ℕ → List ℕ → Category
classify provider id message =
    if is_kernel_power provider id
    then kernel_power
    else if is_bugcheck provider id message
    then bugcheck
    else if is_whea provider
    then whea
    else if is_disk provider id
    then disk
    else if is_display provider
    then display
    else if id_in id shutdown_clean_ids
    then shutdown_clean
    else if id_in id shutdown_unexpected_ids
    then shutdown_unexpected
    else if is_service_control provider
    then service_control
    else other

unfoldable pub classify_event : EventFields → Category
unfolding provider_text event_id classify lower is_kernel_power is_bugcheck is_whea is_disk
    is_display is_service_control contains_any contains same_text
classify_event ev = classify (provider_text ev) (event_id ev) (lower (or_empty ev.message))
