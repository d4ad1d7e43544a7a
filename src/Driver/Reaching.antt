-- ===== src/Driver/Reaching.antt =====
-- Whom a broadcast of `Bridge` in driver/src/bridge.rs reaches.
use mpc_sdk_framework.Prelude.{nat_eq, list_eq}
use mpc_sdk_framework.Client.State
use mpc_sdk_framework.Driver.Bridge.{Bridge}
