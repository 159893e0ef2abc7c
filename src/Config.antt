-- ===== src/Config.antt =====
-- The configuration: src/xmpp_p2p_chat/common/config.py. A path is a text, as `str(path)` gives it.
-- A configuration file is what `tomllib` reads, where every setting has the type that the data
-- classes give it; a setting or a section may be missing.
pub mod Loading
pub mod Tests
use serverless_xmpp.Base.{
  ℕ, String, Bool, true, false, Option, none, some, ◌==◌, truthy, ◌⧺◌, if◌then◌else◌,
}
use serverless_xmpp.Base.Decimal.{decimal}

pub record XmppConfig : Type 0 where
  pub jid : String
  pub password : String
  pub password_ref : String
  pub server : String
  pub port : ℕ
  pub ping_interval_seconds : ℕ
  pub ping_timeout_seconds : ℕ
  pub stream_management_enabled : Bool

pub record AddressBookSyncConfig : Type 0 where
  pub enabled : Bool
  pub secret : String
  pub auto_apply : Bool
  pub max_timestamp_skew_seconds : ℕ

pub record P2pConfig : Type 0 where
  pub local_jid : String
  pub listen_host : String
  pub listen_port : ℕ
  pub mdns_enabled : Bool
  pub mdns_service_type : String

pub record UiConfig : Type 0 where
  pub serve_web : Bool
  pub web_host : String
  pub web_port : ℕ
  pub web_root : String

pub record AppConfig : Type 0 where
  pub data_directory : String
  pub bundled_addressbook : String
  pub import_bundled_if_empty : Bool
  pub default_transport : String
  pub api_host : String
  pub api_port : ℕ
  pub api_token : String
  pub log_level : String
  pub log_file : String
  pub log_json_file : String
  pub log_ebk_stderr : Bool
  pub enforce_tls : Bool
  pub allow_self_signed_direct : Bool
  pub xmpp : XmppConfig
  pub p2p : P2pConfig
  pub ui : UiConfig
  pub addressbook_sync : AddressBookSyncConfig

-- The environment: two variables, and `_expand`, which asks the system for the home directory and
-- resolves links.
pub record Environment : Type 0 where
  pub xdg_config_home : Option String
  pub xdg_data_home : Option String
  pub expand : String → String

-- `path / name` of a resolved path
unfoldable pub join_path : String → String → String
join_path path name = if path == "/" then "/" ⧺ name else path ⧺ "/" ⧺ name

-- The directory below the variable, if that is set, and else the one below the home directory.
unfoldable pub xdg_path : (String → String) → Option String → String → String → String
xdg_path expand none below home = expand home
xdg_path expand (some xdg) below home = if truthy xdg then expand (xdg ⧺ below) else expand home

unfoldable pub default_config_path : Environment → String
unfolding xdg_path
default_config_path env =
    xdg_path env.expand env.xdg_config_home "/xmpp-p2p-chat/config.toml"
      "~/.config/xmpp-p2p-chat/config.toml"

unfoldable pub default_data_dir : Environment → String
unfolding xdg_path
default_data_dir env =
    xdg_path env.expand env.xdg_data_home "/xmpp-p2p-chat" "~/.local/share/xmpp-p2p-chat"

-- `XMPPConfig()`, `AddressBookSyncConfig()`, `P2PConfig()`, `UIConfig()` and `AppConfig()`
abbrev pub default_xmpp : XmppConfig
default_xmpp = record {
  jid = "";
  password = "";
  password_ref = "";
  server = "";
  port = 5222;
  ping_interval_seconds = 90;
  ping_timeout_seconds = 30;
  stream_management_enabled = true;
}

abbrev pub default_sync : AddressBookSyncConfig
default_sync = record {
  enabled = false;
  secret = "";
  auto_apply = false;
  max_timestamp_skew_seconds = 300;
}

abbrev pub default_p2p : P2pConfig
default_p2p = record {
  local_jid = "";
  listen_host = "0.0.0.0";
  listen_port = 5223;
  mdns_enabled = true;
  mdns_service_type = "_xmpp-p2p._tcp.local.";
}

abbrev pub default_ui : UiConfig
default_ui = record { serve_web = true; web_host = "127.0.0.1"; web_port = 8767; web_root = "" }

unfoldable pub default_config : Environment → AppConfig
default_config env = record {
  data_directory = default_data_dir env;
  bundled_addressbook = "";
  import_bundled_if_empty = true;
  default_transport = "direct-p2p";
  api_host = "127.0.0.1";
  api_port = 8765;
  api_token = "";
  log_level = "INFO";
  log_file = "";
  log_json_file = "";
  log_ebk_stderr = true;
  enforce_tls = true;
  allow_self_signed_direct = true;
  xmpp = default_xmpp;
  p2p = default_p2p;
  ui = default_ui;
  addressbook_sync = default_sync;
}

module _ (c : AppConfig) where
  unfoldable pub web_ui_url : String
  web_ui_url = "http://" ⧺ c.ui.web_host ⧺ ":" ⧺ decimal c.ui.web_port ⧺ "/"

  unfoldable pub p2p_cert_dir : String
  p2p_cert_dir = join_path c.data_directory "p2p"

  -- `self.p2p.local_jid or self.xmpp.jid or "user@p2p.local"`
  unfoldable pub effective_local_jid : String
  effective_local_jid =
      if truthy c.p2p.local_jid
      then c.p2p.local_jid
      else if truthy c.xmpp.jid
      then c.xmpp.jid
      else "user@p2p.local"

  unfoldable pub addressbook_path : String
  addressbook_path = join_path c.data_directory "addressbook.json"

  unfoldable pub addressbooks_dir : String
  addressbooks_dir = join_path c.data_directory "addressbooks.d"

  unfoldable pub db_path : String
  db_path = join_path c.data_directory "messages.db"

  unfoldable pub api_ws_url : String
  api_ws_url = "ws://" ⧺ c.api_host ⧺ ":" ⧺ decimal c.api_port ⧺ "/rpc"
