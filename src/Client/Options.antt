-- ===== src/Client/Options.antt =====
-- `ClientOptions` of client/src/lib.rs, and the calls of the crates `snow`, `hex` and `flate2` that
-- the client makes, as interfaces.
use mpc_sdk_framework.Prelude.{
  ℕ, [], ◌∷◌, ◌++◌, Option, none, some, nat_eq, list_eq, ◌==◌, true, if◌then◌else◌,
}
use mpc_sdk_framework.Messages.{Bytes}
use mpc_sdk_framework.Types
use mpc_sdk_framework.Channel.Noise.{handshake}
use mpc_sdk_framework.Actions.{Outcome, done, failed}
use mpc_sdk_framework.Client.State.{Error, snow, websocket, connect_error, ClientOptions, Client}

-- `snow::Builder` with a local private and a remote public key; `none` is a `snow::Error`.
pub record Builder (H : Type 0) : Type 0 where
  pub build_initiator : Bytes → Bytes → Bytes → Option H
  pub build_responder : Bytes → Bytes → Bytes → Option H

-- `parse` of noise parameters, which are known by their name, `hex::encode`, the text of a status
-- code, and the two directions of protocol/src/zlib.rs.
pub record Codecs : Type 0 where
  pub parse : Bytes → Option Bytes
  pub status_text : ℕ → Bytes
  pub hex : Bytes → Bytes
  pub deflate : Bytes → Option Bytes
  pub inflate : Bytes → Option Bytes

abbrev slash : ℕ
slash = 47

-- "/?public_key=".
abbrev query : Bytes
query = 47 ∷ 63 ∷ 112 ∷ 117 ∷ 98 ∷ 108 ∷ 105 ∷ 99 ∷ 95 ∷ 107 ∷ 101 ∷ 121 ∷ 61 ∷ []

-- `trim_end_matches('/')`.
unfoldable pub trim_end : Bytes → Bytes
trim_end [] = []
trim_end (c ∷ cs) =
    let rest = trim_end cs in
    elim rest [ [] ↦ if c == slash then [] else c ∷ [] | d ∷ ds ↦ c ∷ d ∷ ds ]

module _ ⦃codecs : Codecs⦄ where
  unfoldable pub url : ClientOptions → Bytes → Bytes
  unfolding trim_end
  url options server = trim_end server ++ query ++ codecs.hex options.keypair.public

module _ ⦃codecs : Codecs⦄ where
  unfoldable pub params : ClientOptions → Option Bytes
  params options = elim options.pattern [
    | none ↦ codecs.parse Types.pattern
    | some pattern ↦ codecs.parse pattern
  ]

module _ {H : Type 0} ⦃builder : Builder H⦄ ⦃codecs : Codecs⦄ where
  unfoldable pub initiator_for : ClientOptions → Bytes → Option H
  unfolding params
  initiator_for options key = elim (params options) [
    | none ↦ none
    | some p ↦ builder.build_initiator p options.keypair.private key
  ]

  unfoldable pub responder_for : ClientOptions → Bytes → Option H
  unfolding params
  responder_for options key = elim (params options) [
    | none ↦ none
    | some p ↦ builder.build_responder p options.keypair.private key
  ]

abbrev pub switching_protocols : ℕ
switching_protocols = 101

module _ {H T : Type 0} ⦃builder : Builder H⦄ ⦃codecs : Codecs⦄ where
  -- `NativeClient::new`, given the status of the answer to `connect_async`, or `none` for its error:
  -- a handshake with the server, no peers, and two empty channels.
  unfoldable pub new : Option ℕ → ClientOptions → Outcome Error (Client H T)
  unfolding initiator_for
  new none options = failed websocket
  new (some status) options =
      if status == switching_protocols
      then elim (initiator_for options options.server_public_key) [
        | none ↦ failed snow
        | some h ↦ done (record {
          options = options;
          server = some (handshake h);
          peers = [];
          outbound = [];
          inbound = [];
          written = [];
          listening = true;
        })
      ]
      else failed (connect_error status (codecs.status_text status))
