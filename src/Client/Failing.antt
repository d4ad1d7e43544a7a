-- ===== src/Client/Failing.antt =====
-- What an answer of the server to the handshake does to the client when it is refused:
-- `server_handshake` of client/src/event_loop.rs and `request` of client/src/client.rs.
use mpc_sdk_framework.Prelude.{◌≡◌, refl, inl, inr, ℕ, Option, none, some}
use mpc_sdk_framework.Messages.{Bytes, ServerMessage, transparent, server_handshake, responder}
use mpc_sdk_framework.Wire.{BinaryStream}
use mpc_sdk_framework.Channel.Noise.{
  TransportState, HandshakeState, ProtocolState, handshake, transport,
}
use mpc_sdk_framework.Actions.{
  failed, panicked, act_then, ◌>>=◌, ◌>>◌, read_state, pure, fail, crash, failed_cases,
}
use mpc_sdk_framework.Client.State.{
  Act, Client, Error, Event, not_handshake_state, server_connected, set_server,
}
use mpc_sdk_framework.Client.Options.{Builder, Codecs}
use mpc_sdk_framework.Client.Calls.{request}
use mpc_sdk_framework.Client.Incoming.{
  handle_incoming_message, server_handshake_done, finish_handshake, as_event,
}
use mpc_sdk_framework.Client.Stays.{finish_handshake-Stays}

module _ {H T : Type 0} ⦃handshakes : HandshakeState H T⦄ where
  -- From a client whose state has been taken.
  finished_failed :
      (len : ℕ) (buf key : Bytes) (state : Option (ProtocolState H T)) (c c' : Client H T)
      (e : Error)
      → c.server ≡ none
      → (elim state as (λ x. Act H T Event) [
        | some (handshake h) ↦ do
          t ← finish_handshake h len buf
          set_server (some (transport t))
          pure (server_connected key)
        | _ ↦ fail not_handshake_state
      ])
          c
        ≡ (failed e, c')
      → c'.server ≡ none
  unfolding ◌>>=◌ ◌>>◌ fail set_server act_then pure
  finished_failed len buf key none c c' e taken h = cc (h, taken)
  finished_failed len buf key (some (transport t)) c c' e taken h = cc (h, taken)
  finished_failed len buf key (some (handshake x)) c c' e taken h =
      elim (failed_cases (finish_handshake x len buf c) _ h) [
        | inl f ↦
            let kept : (finish_handshake x len buf c).1.server ≡ none =
              (finish_handshake-Stays {P = λ d. d.server ≡ none} x len buf).apply c taken in
            rw f at kept
        | inr (t, s, f, g) ↦ cc g
      ]

  refused :
      (len : ℕ) (buf : Bytes) (c c' : Client H T) (e : Error)
      → as_event (server_handshake_done len buf) c ≡ (failed e, c')
      → c'.server ≡ none
  unfolding as_event server_handshake_done ◌>>=◌ ◌>>◌ read_state set_server act_then pure
  refused len buf c c' e h = elim (failed_cases (server_handshake_done len buf c) _ h) [
    | inl f ↦
        finished_failed len buf c.options.server_public_key c.server (record c { server = none }) c'
          e refl f
    | inr (event, s, f, g) ↦ cc g
  ]

module _ {H T : Type 0} ⦃bin : BinaryStream⦄ ⦃noise : TransportState T⦄
    ⦃handshakes : HandshakeState H T⦄ ⦃builder : Builder H⦄ ⦃codecs : Codecs⦄ where
  -- When an answer of the server to the handshake is handled with an error, whatever the error and
  -- whatever the state of the client before, a request to the server from the state that is left
  -- panics.
  pub request-handle_failed :
      (len : ℕ) (buf : Bytes) (c c' : Client H T) (e : Error) (message : ServerMessage)
      → handle_incoming_message (transparent (server_handshake (responder len buf))) c
        ≡ (failed e, c')
      → request message c' ≡ (panicked, c')
  unfolding handle_incoming_message request ◌>>=◌ act_then read_state crash
  request-handle_failed len buf c c' e message h = rw (refused len buf c c' e h) refl

  -- An answer to the handshake that arrives when the client is in transport mode with the server is
  -- always such an error.
  pub handle_unasked :
      (len : ℕ) (buf : Bytes) (c : Client H T) (t : T)
      → c.server ≡ some (transport t)
      → handle_incoming_message (transparent (server_handshake (responder len buf))) c
        ≡ (failed not_handshake_state, record c { server = none })
  unfolding handle_incoming_message as_event server_handshake_done ◌>>=◌ ◌>>◌ act_then read_state
      set_server fail
  handle_unasked len buf c t state = rw (state, act_then) refl
