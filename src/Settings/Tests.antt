-- ===== src/Settings/Tests.antt =====
-- The defaults of config/schema.py.
use fedr.Base.{◌≡◌, refl}
use fedr.Models.{testnet}
use fedr.Settings.{apply_risk_profile}
use fedr.Settings.Defaults.{default_settings, mode_of}

boots_in_testnet : (default_settings "testnet").general.mode ≡ testnet
unfolding default_settings apply_risk_profile mode_of
boots_in_testnet = refl
