-- ===== src/Compare/Defaults.antt =====
-- The noise lists of go/internal/config/config.go that stand in for a list that is not given.
use quarantine_lab.Prelude.{List, [], ◌∷◌}
use quarantine_lab.Prelude.Text.{Text, codes}

-- DefaultNoiseDomains
unfoldable pub default_noise_domains : List Text
default_noise_domains =
    codes "msftconnecttest.com"
    ∷ codes "microsoft.com"
    ∷ codes "microsoft.net"
    ∷ codes "msn.com"
    ∷ codes "bing.com"
    ∷ codes "windowsupdate.com"
    ∷ codes "office.com"
    ∷ codes "office365.com"
    ∷ codes "live.com"
    ∷ codes "microsoftpersonalcontent.com"
    ∷ codes "onedrive.com"
    ∷ codes "sharepoint.com"
    ∷ codes "skype.com"
    ∷ codes "windows.com"
    ∷ codes "xboxlive.com"
    ∷ codes "xboxab.com"
    ∷ codes "azure.com"
    ∷ codes "azureedge.net"
    ∷ codes "trafficmanager.net"
    ∷ codes "msedge.net"
    ∷ codes "msauth.net"
    ∷ codes "msidentity.com"
    ∷ codes "hotmail.com"
    ∷ codes "outlook.com"
    ∷ codes "visualstudio.com"
    ∷ codes "digicert.com"
    ∷ codes "akamaihd.net"
    ∷ codes "akamaiedge.net"
    ∷ codes "akamai.net"
    ∷ codes "aspnetcdn.com"
    ∷ codes "windows.net"
    ∷ codes "officeapps.live.com"
    ∷ codes "mp.microsoft.com"
    ∷ codes "events.data.microsoft.com"
    ∷ codes "data.microsoft.com"
    ∷ codes "telemetry.microsoft.com"
    ∷ codes "msftncsi.com"
    ∷ codes "cloud.microsoft"
    ∷ codes "office.net"
    ∷ codes "sfx.ms"
    ∷ codes "s-microsoft.com"
    ∷ codes "akamaized.net"
    ∷ []

-- DefaultNoiseFiles
unfoldable pub default_noise_files : List Text
default_noise_files =
    codes "\\Microsoft\\EdgeUpdate\\"
    ∷ codes "\\Microsoft\\OneDrive\\ListSync"
    ∷ codes "\\AppData\\Local\\Microsoft\\OneDrive\\"
    ∷ codes "\\$Extend\\"
    ∷ codes "\\Windows\\ServiceState\\"
    ∷ codes "\\Microsoft\\Windows\\AppRepository\\"
    ∷ codes "\\Microsoft\\InstallService\\"
    ∷ codes "\\Users\\Public\\Quarantine\\"
    ∷ codes "\\Windows Security Health\\"
    ∷ codes "\\PowerGrid\\"
    ∷ codes "manifest-capture.json"
    ∷ codes "Get-QuarantineGuestManifest.ps1"
    ∷ codes "Get-QuarantineGuestSysmonEvents.ps1"
    ∷ codes ".etl"
    ∷ codes "\\Windows\\Temp\\"
    ∷ codes "\\Temp\\"
    ∷ codes "\\SearchIndexer.exe"
    ∷ codes "\\svchost.exe"
    ∷ codes "\\MsMpEng.exe"
    ∷ codes "\\SecurityHealthService.exe"
    ∷ []

-- DefaultNoiseRegistry
unfoldable pub default_noise_registry : List Text
default_noise_registry =
    codes "\\IrisService\\Cache\\"
    ∷ codes "\\TaskCache\\Tasks\\{"
    ∷ codes "\\Explorer\\SessionInfo\\"
    ∷ codes "\\ContentDeliveryManager\\"
    ∷ codes "\\InstallService\\State"
    ∷ codes "\\Volatile Environment\\"
    ∷ []
