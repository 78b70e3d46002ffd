-- ===== src/Guest/Noise/Tables.antt =====
-- The tables of go/internal/agent/collectors/file_noise.go.
use quarantine_lab.Prelude.{List, [], ◌∷◌}
use quarantine_lab.Prelude.Text.{Text, codes}

-- signalExt
abbrev pub signal_ext : List Text
signal_ext =
    codes ".exe"
    ∷ codes ".dll"
    ∷ codes ".sys"
    ∷ codes ".scr"
    ∷ codes ".cpl"
    ∷ codes ".ocx"
    ∷ codes ".drv"
    ∷ codes ".efi"
    ∷ codes ".ps1"
    ∷ codes ".bat"
    ∷ codes ".cmd"
    ∷ codes ".vbs"
    ∷ codes ".js"
    ∷ codes ".jse"
    ∷ codes ".wsf"
    ∷ codes ".wsh"
    ∷ codes ".msi"
    ∷ codes ".msp"
    ∷ codes ".com"
    ∷ codes ".pif"
    ∷ codes ".hta"
    ∷ codes ".inf"
    ∷ codes ".reg"
    ∷ codes ".iso"
    ∷ codes ".img"
    ∷ codes ".vhd"
    ∷ codes ".vhdx"
    ∷ codes ".lnk"
    ∷ []

-- noiseNames
abbrev pub noise_names : List Text
noise_names =
    codes "ntuser.dat"
    ∷ codes "ntuser.dat.log1"
    ∷ codes "ntuser.dat.log2"
    ∷ codes "usrclass.dat"
    ∷ codes "usrclass.dat.log1"
    ∷ codes "usrclass.dat.log2"
    ∷ codes "iconcache.db"
    ∷ codes "thumbs.db"
    ∷ codes "thumbcache_idx.db"
    ∷ codes "privileged-job.done"
    ∷ codes "ngen.log"
    ∷ codes "sru.log"
    ∷ codes "srutmp.log"
    ∷ codes "cache0.bin"
    ∷ codes "cachev3.dat"
    ∷ codes "desktop.ini"
    ∷ codes "inventorydriverbinary.db-journal"
    ∷ codes "inventorydevicepnp.db-journal"
    ∷ []

-- noiseNameContains
abbrev pub noise_name_contains : List Text
noise_name_contains =
    codes "report.wer"
    ∷ codes ".wer.tmp"
    ∷ codes ".db-journal"
    ∷ codes ".db-wal"
    ∷ codes ".db-shm"
    ∷ codes ".dxcache"
    ∷ codes "dxcache-shm"
    ∷ codes "dxcache-wal"
    ∷ codes "hklm-hklm_"
    ∷ codes "hklm-registry-"
    ∷ codes "startupprofiledata-"
    ∷ codes "__psscriptpolicytest_"
    ∷ codes "_psscriptpolicytest_"
    ∷ codes "prep_activatable class_"
    ∷ []

-- noisePathParts
abbrev pub noise_path_parts : List Text
noise_path_parts =
    codes "\\appdata\\local\\microsoft\\windows\\inetcache\\"
    ∷ codes "\\appdata\\local\\microsoft\\windows\\webcache\\"
    ∷ codes "\\appdata\\local\\microsoft\\windows\\history\\"
    ∷ codes "\\appdata\\local\\microsoft\\windows\\temporary internet files\\"
    ∷ codes "\\appdata\\local\\microsoft\\windows\\caches\\"
    ∷ codes "\\appdata\\local\\microsoft\\windows\\notifications\\"
    ∷ codes "\\appdata\\local\\microsoft\\windows\\explorer\\thumbcache"
    ∷ codes "\\appdata\\local\\microsoft\\windows\\inetcookies\\"
    ∷ codes "\\appdata\\local\\d3dscache\\"
    ∷ codes "\\appdata\\local\\fontconfig\\"
    ∷ codes "\\appdata\\local\\temp\\"
    ∷ codes "\\appdata\\local\\crashdumps\\"
    ∷ codes "\\appdata\\local\\package cache\\"
    ∷ codes "\\appdata\\roaming\\microsoft\\windows\\recent\\"
    ∷ codes "\\windows\\prefetch\\"
    ∷ codes "\\windows\\temp\\"
    ∷ codes "\\windows\\systemtemp\\"
    ∷ codes "\\windows\\logs\\"
    ∷ codes "\\windows\\softwaredistribution\\"
    ∷ codes "\\windows\\servicestate\\"
    ∷ codes "\\windows\\servicestates\\"
    ∷ codes "\\windows\\serviceprofiles\\"
    ∷ codes "\\windows\\system32\\config\\systemprofile\\appdata\\"
    ∷ codes "\\windows\\system32\\spp\\store\\"
    ∷ codes "\\windows\\system32\\winevt\\logs\\"
    ∷ codes "\\windows\\system32\\wbem\\repository\\"
    ∷ codes "\\windows\\system32\\config\\journal\\"
    ∷ codes "\\windows\\cbstemp\\"
    ∷ codes "\\windows\\winsxs\\temp\\"
    ∷ codes "\\windows\\appcompat\\"
    ∷ codes "\\windows\\catroot\\"
    ∷ codes "\\windows\\catroot2\\"
    ∷ codes "\\windows\\system32\\catroot\\"
    ∷ codes "\\windows\\system32\\catroot2\\"
    ∷ codes "\\windows\\system32\\driverstore\\"
    ∷ codes "\\windows\\system32\\sru\\"
    ∷ codes "\\windows\\system32\\sleepstudy\\"
    ∷ codes "\\windows\\system32\\logfiles\\"
    ∷ codes "\\windows\\system32\\config\\txf\\"
    ∷ codes "\\windows\\system32\\config\\txr\\"
    ∷ codes "\\windows\\servicing\\"
    ∷ codes "\\windows\\logs\\"
    ∷ codes "\\programdata\\microsoft\\windows\\apprepository\\"
    ∷ codes "\\programdata\\microsoft\\windows\\clip\\"
    ∷ codes "\\programdata\\microsoft\\windows\\wer\\"
    ∷ codes "\\programdata\\microsoft\\diagnosis\\"
    ∷ codes "\\programdata\\microsoft\\search\\"
    ∷ codes "\\programdata\\microsoft\\windows defender\\scans\\"
    ∷ codes "\\programdata\\microsoft\\windows defender\\support\\"
    ∷ codes "\\programdata\\microsoft\\windows\\caches\\"
    ∷ codes "\\appdata\\local\\connecteddevicesplatform\\"
    ∷ codes "\\appdata\\local\\microsoft\\windowsapps\\"
    ∷ codes "\\appdata\\local\\packages\\"
    ∷ codes "\\appdata\\local\\microsoft\\clr_v"
    ∷ codes "\\users\\public\\quarantine\\"
    ∷ codes "\\programdata\\quarantinelab\\"
    ∷ codes "\\program files\\quarantinelab\\"
    ∷ []

-- browserCacheParts
abbrev pub browser_cache_parts : List Text
browser_cache_parts =
    codes "\\cache\\cache_data\\"
    ∷ codes "\\code cache\\"
    ∷ codes "\\gpuCache\\"
    ∷ codes "\\shadercache\\"
    ∷ codes "\\service worker\\"
    ∷ codes "\\dawncache\\"
    ∷ codes "\\optimizationguide"
    ∷ codes "\\safebrowsing\\"
    ∷ codes "\\jump list icons\\"
    ∷ codes "\\edge\\user data\\"
    ∷ codes "\\google\\chrome\\user data\\"
    ∷ codes "\\microsoft\\edge\\user data\\"
    ∷ codes "\\mozilla\\firefox\\profiles\\"
    ∷ codes "\\chromium\\user data\\"
    ∷ []

-- captureSelfParts
abbrev pub capture_self_parts : List Text
capture_self_parts =
    codes "\\users\\public\\quarantine\\"
    ∷ codes "\\programdata\\quarantinelab\\"
    ∷ codes "\\program files\\quarantinelab\\"
    ∷ codes "\\hives\\"
    ∷ []

-- noisePrefixes of isSystem32SignalPath
abbrev pub noise_prefixes : List Text
noise_prefixes =
    codes "config\\systemprofile\\"
    ∷ codes "spp\\store\\"
    ∷ codes "winevt\\logs\\"
    ∷ codes "wbem\\repository\\"
    ∷ codes "config\\journal\\"
    ∷ codes "config\\txr\\"
    ∷ codes "config\\txf\\"
    ∷ codes "catroot\\"
    ∷ codes "catroot2\\"
    ∷ codes "driverstore\\"
    ∷ codes "sru\\"
    ∷ codes "sleepstudy\\"
    ∷ codes "logfiles\\"
    ∷ codes "ias\\"
    ∷ codes "microsoft\\"
    ∷ codes "oobe\\"
    ∷ []
