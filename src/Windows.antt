-- ===== src/Windows.antt =====
-- watchpost/checks/windows.py: the quoting of texts for PowerShell.
pub mod Kerberos
pub mod Checks
pub mod Wmi
pub mod Quoting
use ip_montior.Base.{String, ◌<>◌, replace}

unfoldable pub ps_quote : String → String
unfolding replace
ps_quote value = "'" <> replace "'" "''" value <> "'"
