-- ===== src/Server/Config.antt =====
-- server/src/config.rs: the access lists, the session settings and the checks that `load` makes of
-- them, and the guard with which `upgrade` of server/src/websocket.rs consults the lists. The path
-- of the key, TLS and the noise pattern are left out: `load` only hands them to the file system.
use mpc_sdk_framework.Prelude.{
  is_some, ℕ, ◌≡◌, ◌↔◌, ◌⊎◌, Bool, true, false, ◌&&◌, ◌||◌, not, List, Option, none, some, leb,
  nat_eq, list_eq, contains, if◌then◌else◌, arith,
}
use mpc_sdk_framework.Messages.{Bytes}

pub record SessionConfig : Type 0 where
  pub timeout : ℕ
  pub interval : ℕ
  pub wait_interval : ℕ
  pub wait_timeout : ℕ

pub record ServerConfig : Type 0 where
  pub session : SessionConfig
  pub allow : Option (List Bytes)
  pub deny : Option (List Bytes)

unfoldable pub default_session_config : SessionConfig
default_session_config = record {
  timeout = 300;
  interval = 900;
  wait_interval = 15;
  wait_timeout = 300;
}

-- `list.iter().any(|k| k.public_key == key)` of a list that is there.
unfoldable pub listed : Bytes → Option (List Bytes) → Bool
listed key none = false
listed key (some keys) = contains key keys

unfoldable pub is_allowed_access : ServerConfig → Bytes → Bool
unfolding listed is_some
is_allowed_access config key =
    if listed key config.deny
    then false
    else if is_some config.allow
    then listed key config.allow
    else true

-- What `upgrade` answers with `FORBIDDEN`.
unfoldable pub is_forbidden : ServerConfig → Bytes → Bool
unfolding is_allowed_access is_some
is_forbidden config key =
    (is_some config.allow || is_some config.deny) && not (is_allowed_access config key)

pub data ConfigError : Type 0 where
  session_timeout_config session_wait_config : ConfigError

-- The checks of the session settings in `load`: the error of the first that fails.
unfoldable pub check_session_config : SessionConfig → Option ConfigError
check_session_config s =
    if leb s.interval s.timeout
    then some session_timeout_config
    else if leb s.wait_timeout s.wait_interval
    then some session_wait_config
    else none

-- A key is let in exactly when the deny list, if there is one, does not hold it, and the allow
-- list, if there is one, does.
pub is_forbidden_iff :
    (config : ServerConfig) (key : Bytes)
    → (is_forbidden config key ≡ false) ↔ (
        (listed key config.deny ≡ false)
        × ((config.allow ≡ none) ⊎ (listed key config.allow ≡ true)))
unfolding is_forbidden is_allowed_access listed is_some
is_forbidden_iff config key = ground arith
