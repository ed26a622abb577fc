-- ===== src/Devices/Agents.antt =====
-- `detectBrowser` and `detectOS` of backend/src/devices/devices.service.ts.
use text.Mathlib.Text.{starts_with}
use bankproject.Base.{String, Bool, ◌||◌, Option, none, some, if◌then◌else◌}
use bankproject.Text.{is_truthy}

-- `s.includes(part)`
unfoldable pub includes : String → String → Bool
includes part String.[] = starts_with String.[] part
includes part (String.◌∷◌ c s) = starts_with (String.◌∷◌ c s) part || includes part s

unfoldable pub detect_browser : Option String → String
detect_browser none = "Unknown"
detect_browser (some agent) =
    if is_truthy agent
    then if includes "Edg/" agent
      then "Edge"
      else if includes "Chrome/" agent
      then "Chrome"
      else if includes "Firefox/" agent
      then "Firefox"
      else if includes "Safari/" agent
      then "Safari"
      else "Unknown"
    else "Unknown"

unfoldable pub detect_os : Option String → String
detect_os none = "Unknown"
detect_os (some agent) =
    if is_truthy agent
    then if includes "Windows" agent
      then "Windows"
      else if includes "Android" agent
      then "Android"
      else if includes "iPhone" agent || includes "iPad" agent
      then "iOS"
      else if includes "Mac OS" agent
      then "macOS"
      else if includes "Linux" agent
      then "Linux"
      else "Unknown"
    else "Unknown"
