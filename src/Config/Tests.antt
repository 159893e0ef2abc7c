-- ===== src/Config/Tests.antt =====
-- The configuration of a machine without settings.
use serverless_xmpp.Base.{◌≡◌, refl, some, none}
use serverless_xmpp.Samples.{home}
use serverless_xmpp.Config.Loading.{load_config, save_default_config, load-save_default_config}

load-save_default_config_example :
    load_config home (some (save_default_config home)) ≡ load_config home none
load-save_default_config_example = load-save_default_config home (λ path. refl)
