-- ===== src/Config/Loading.antt =====
-- `load_config` and `save_default_config` of src/xmpp_p2p_chat/common/config.py.
use serverless_xmpp.Base.{
  or_else, Option-cases, arith, ◌⧺◌, ℕ, String, Bool, true, false, ◌≡◌, refl, Option, none, some,
  truthy, if◌then◌else◌, Bool-cases, inl, inr,
}
use serverless_xmpp.Config.{
  xdg_path, XmppConfig, AddressBookSyncConfig, P2pConfig, UiConfig, AppConfig, Environment,
  default_data_dir, default_config,
}

-- The sections of a file.
pub record DataSection : Type 0 where
  pub directory : Option String
  pub bundled_addressbook : Option String
  pub import_bundled_if_empty : Option Bool

pub record ConnectionSection : Type 0 where
  pub default_transport : Option String
  pub api_host : Option String
  pub api_port : Option ℕ
  pub api_token : Option String

pub record LoggingSection : Type 0 where
  pub level : Option String
  pub file : Option String
  pub json_file : Option String
  pub ebk_stderr : Option Bool

pub record SecuritySection : Type 0 where
  pub enforce_tls : Option Bool
  pub allow_self_signed_direct : Option Bool

pub record XmppSection : Type 0 where
  pub jid : Option String
  pub password : Option String
  pub password_ref : Option String
  pub server : Option String
  pub port : Option ℕ
  pub ping_interval_seconds : Option ℕ
  pub ping_timeout_seconds : Option ℕ
  pub stream_management_enabled : Option Bool

pub record SyncSection : Type 0 where
  pub enabled : Option Bool
  pub secret : Option String
  pub auto_apply : Option Bool
  pub max_timestamp_skew_seconds : Option ℕ

pub record P2pSection : Type 0 where
  pub local_jid : Option String
  pub listen_host : Option String
  pub listen_port : Option ℕ
  pub mdns_enabled : Option Bool
  pub mdns_service_type : Option String

pub record UiSection : Type 0 where
  pub serve_web : Option Bool
  pub web_host : Option String
  pub web_port : Option ℕ
  pub web_root : Option String

-- `[addressbook.sync]` stands in the table `addressbook`.
pub record TomlFile : Type 0 where
  pub data_section : Option DataSection
  pub connection : Option ConnectionSection
  pub logging : Option LoggingSection
  pub security : Option SecuritySection
  pub xmpp : Option XmppSection
  pub addressbook : Option (Option SyncSection)
  pub addressbook_sync : Option SyncSection
  pub p2p : Option P2pSection
  pub ui : Option UiSection

abbrev pub no_data : DataSection
no_data = record { directory = none; bundled_addressbook = none; import_bundled_if_empty = none }

abbrev pub no_connection : ConnectionSection
no_connection = record {
  default_transport = none;
  api_host = none;
  api_port = none;
  api_token = none;
}

abbrev pub no_logging : LoggingSection
no_logging = record { level = none; file = none; json_file = none; ebk_stderr = none }

abbrev pub no_security : SecuritySection
no_security = record { enforce_tls = none; allow_self_signed_direct = none }

abbrev pub no_xmpp : XmppSection
no_xmpp = record {
  jid = none;
  password = none;
  password_ref = none;
  server = none;
  port = none;
  ping_interval_seconds = none;
  ping_timeout_seconds = none;
  stream_management_enabled = none;
}

abbrev pub no_sync : SyncSection
no_sync = record {
  enabled = none;
  secret = none;
  auto_apply = none;
  max_timestamp_skew_seconds = none;
}

abbrev pub no_p2p : P2pSection
no_p2p = record {
  local_jid = none;
  listen_host = none;
  listen_port = none;
  mdns_enabled = none;
  mdns_service_type = none;
}

abbrev pub no_ui : UiSection
no_ui = record { serve_web = none; web_host = none; web_port = none; web_root = none }

-- `data.get("addressbook", {}).get("sync", data.get("addressbook_sync", {}))`
unfoldable pub sync_section : TomlFile → SyncSection
sync_section f = elim f.addressbook [
  | none ↦ or_else f.addressbook_sync no_sync
  | some table ↦ or_else table (or_else f.addressbook_sync no_sync)
]

-- A directory that is named, and is not empty, is expanded.
unfoldable pub data_directory_of : (String → String) → Option String → String → String
data_directory_of expand none d = d
data_directory_of expand (some path) d = if truthy path then expand path else d

unfoldable pub load_xmpp : XmppSection → XmppConfig → XmppConfig
load_xmpp s c = record {
  jid = or_else s.jid c.jid;
  password = or_else s.password c.password;
  password_ref = or_else s.password_ref c.password_ref;
  server = or_else s.server c.server;
  port = or_else s.port c.port;
  ping_interval_seconds = or_else s.ping_interval_seconds c.ping_interval_seconds;
  ping_timeout_seconds = or_else s.ping_timeout_seconds c.ping_timeout_seconds;
  stream_management_enabled = or_else s.stream_management_enabled c.stream_management_enabled;
}

unfoldable pub load_sync : SyncSection → AddressBookSyncConfig → AddressBookSyncConfig
load_sync s c = record {
  enabled = or_else s.enabled c.enabled;
  secret = or_else s.secret c.secret;
  auto_apply = or_else s.auto_apply c.auto_apply;
  max_timestamp_skew_seconds = or_else s.max_timestamp_skew_seconds c.max_timestamp_skew_seconds;
}

unfoldable pub load_p2p : P2pSection → P2pConfig → P2pConfig
load_p2p s c = record {
  local_jid = or_else s.local_jid c.local_jid;
  listen_host = or_else s.listen_host c.listen_host;
  listen_port = or_else s.listen_port c.listen_port;
  mdns_enabled = or_else s.mdns_enabled c.mdns_enabled;
  mdns_service_type = or_else s.mdns_service_type c.mdns_service_type;
}

unfoldable pub load_ui : UiSection → UiConfig → UiConfig
load_ui s c = record {
  serve_web = or_else s.serve_web c.serve_web;
  web_host = or_else s.web_host c.web_host;
  web_port = or_else s.web_port c.web_port;
  web_root = or_else s.web_root c.web_root;
}

-- The settings of a file over those of a configuration.
unfoldable pub overlay : (String → String) → TomlFile → AppConfig → AppConfig
unfolding data_directory_of load_xmpp load_sync load_p2p load_ui sync_section
overlay expand f cfg =
    let data_section = or_else f.data_section no_data in
    let conn = or_else f.connection no_connection in
    let logging_cfg = or_else f.logging no_logging in
    let security = or_else f.security no_security in
    record {
      data_directory = data_directory_of expand data_section.directory cfg.data_directory;
      bundled_addressbook = or_else data_section.bundled_addressbook cfg.bundled_addressbook;
      import_bundled_if_empty =
          or_else data_section.import_bundled_if_empty cfg.import_bundled_if_empty;
      default_transport = or_else conn.default_transport cfg.default_transport;
      api_host = or_else conn.api_host cfg.api_host;
      api_port = or_else conn.api_port cfg.api_port;
      api_token = or_else conn.api_token cfg.api_token;
      log_level = or_else logging_cfg.level cfg.log_level;
      log_file = or_else logging_cfg.file cfg.log_file;
      log_json_file = or_else logging_cfg.json_file cfg.log_json_file;
      log_ebk_stderr = or_else logging_cfg.ebk_stderr cfg.log_ebk_stderr;
      enforce_tls = or_else security.enforce_tls cfg.enforce_tls;
      allow_self_signed_direct =
          or_else security.allow_self_signed_direct cfg.allow_self_signed_direct;
      xmpp = load_xmpp (or_else f.xmpp no_xmpp) cfg.xmpp;
      p2p = load_p2p (or_else f.p2p no_p2p) cfg.p2p;
      ui = load_ui (or_else f.ui no_ui) cfg.ui;
      addressbook_sync = load_sync (sync_section f) cfg.addressbook_sync;
    }

-- `load_config`, of a file that may be missing
unfoldable pub load_config : Environment → Option TomlFile → AppConfig
unfolding overlay
load_config env none = default_config env
load_config env (some f) = overlay env.expand f (default_config env)

-- `save_default_config`: the file that it writes
unfoldable pub save_default_config : Environment → TomlFile
save_default_config env = record {
  data_section = some (record {
    directory = some (default_data_dir env);
    bundled_addressbook = some "";
    import_bundled_if_empty = some true;
  });
  connection = some (record {
    default_transport = some "direct-p2p";
    api_host = some "127.0.0.1";
    api_port = some 8765;
    api_token = some "";
  });
  logging =
      some (record {
        level = some "INFO";
        file = some "";
        json_file = some "";
        ebk_stderr = some true;
      });
  security = some (record { enforce_tls = some true; allow_self_signed_direct = some true });
  xmpp = some (record {
    jid = some "";
    password = some "";
    password_ref = none;
    server = some "";
    port = some 5222;
    ping_interval_seconds = some 90;
    ping_timeout_seconds = some 30;
    stream_management_enabled = some true;
  });
  addressbook = some (
      some (record {
        enabled = some false;
        secret = some "";
        auto_apply = some false;
        max_timestamp_skew_seconds = some 300;
      }));
  addressbook_sync = none;
  p2p = some (record {
    local_jid = some "";
    listen_host = some "0.0.0.0";
    listen_port = some 5223;
    mdns_enabled = some true;
    mdns_service_type = some "_xmpp-p2p._tcp.local.";
  });
  ui = some (record {
    serve_web = some true;
    web_host = some "127.0.0.1";
    web_port = some 8767;
    web_root = some "";
  });
}

expand-default_data_dir :
    (env : Environment)
    → ((path : String) → env.expand (env.expand path) ≡ env.expand path)
    → env.expand (default_data_dir env) ≡ default_data_dir env
unfolding default_data_dir xdg_path
expand-default_data_dir env idem = elim (Option-cases env.xdg_data_home) [
  | inl e ↦ rw e (idem "~/.local/share/xmpp-p2p-chat")
  | inr (xdg, e) ↦
      ground (arith, idem (xdg ⧺ "/xmpp-p2p-chat"), idem "~/.local/share/xmpp-p2p-chat")
]

data_directory_of-default :
    (env : Environment)
    → ((path : String) → env.expand (env.expand path) ≡ env.expand path)
    → data_directory_of env.expand (some (default_data_dir env)) (default_data_dir env)
      ≡ default_data_dir env
unfolding data_directory_of
data_directory_of-default env idem = elim (Bool-cases (truthy (default_data_dir env))) [
  | inl e ↦ rw e (expand-default_data_dir env idem)
  | inr e ↦ rw e refl
]

-- Loading the file that `save_default_config` writes gives the configuration of no file at all, where
-- expanding an expanded path changes nothing.
pub load-save_default_config :
    (env : Environment)
    → ((path : String) → env.expand (env.expand path) ≡ env.expand path)
    → load_config env (some (save_default_config env)) ≡ load_config env none
unfolding load_config save_default_config overlay default_config
load-save_default_config env idem = rw (data_directory_of-default env idem) refl
