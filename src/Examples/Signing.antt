-- ===== src/Examples/Signing.antt =====
-- The flow `sign` of driver/src/gg20/mod.rs, for a participant that takes the number of its peer, a
-- message of the last round of the offline stage, and a partial signature.
use mpc_sdk_framework.Prelude.{
  is_some, ℕ, ◌+◌, ◌≡◌, refl, true, [], ◌∷◌, none, some, nat_eq, ◌==◌, get, insert, eq_list,
}
use mpc_sdk_framework.Messages.{Bytes}
use mpc_sdk_framework.Channel.Counter.{counter, counted}
use mpc_sdk_framework.Channel.Chunks.{split}
use mpc_sdk_framework.Channel.Envelopes.{encrypt_peer_channel}
use mpc_sdk_framework.Wire.LittleEndian.{little_endian}
use mpc_sdk_framework.Actions.{done}
use mpc_sdk_framework.Client.State.{Event, json_message, session_active}
use mpc_sdk_framework.Client.Turns.{ok}
use mpc_sdk_framework.Driver.Waiting.{Yielded}
use mpc_sdk_framework.Driver.Gg20.Machines.{
  StateMachine, machine_proceed, machine_incoming, machine_finish,
}
use mpc_sdk_framework.Driver.Gg20.Participants.{
  participant_proceed, participant_incoming, participant_finish,
}
use mpc_sdk_framework.Driver.Gg20.Starting.{
  new_participant_bridge, new_presign_bridge, new_signature_bridge,
}
use mpc_sdk_framework.Driver.Gg20.Online.{Signing, online_proceed, online_incoming, online_finish}
use mpc_sdk_framework.Driver.Gg20.Flows.{
  join_session, drive, close_down, sign, sign_in_session, flow_then,
}
use mpc_sdk_framework.Driver.Gg20.Verified.{IsSigned, sign-IsSigned}
use mpc_sdk_framework.Examples.Server.{handshakes}
use mpc_sdk_framework.Examples.Clients.{builder, codecs, options, knowing}
use mpc_sdk_framework.Examples.Drivers.{numbers, to_numbers, of_numbers, session, parameters}

-- A signature is the sum of the key and the message.
abbrev adding : Signing ℕ ℕ ℕ ℕ ℕ
adding = record {
  from_bytes = λ bytes. 5;
  public_key = λ completed. completed;
  new = λ data_ completed. some (data_ + completed, 9);
  complete = λ machine partials. some machine;
  verify = λ signature key data_. signature == key + data_;
  to_bytes = λ key. key ∷ [];
  keccak256 = λ bytes. 0 ∷ 0 ∷ 0 ∷ 0 ∷ 0 ∷ 0 ∷ 0 ∷ 0 ∷ 0 ∷ 0 ∷ 0 ∷ 0 ∷ 1 ∷ [];
  hex = λ bytes. bytes;
}

abbrev offline : StateMachine ℕ ℕ ℕ
offline = record {
  handle_incoming = λ message machine. (true, machine);
  proceed = λ machine. (true, machine);
  drain = λ machine. ([], machine);
  current_round = λ machine. 1;
  pick_output = λ machine. some (some machine);
}

abbrev yielded : Event → Yielded ℕ ℕ
yielded event = record { left = λ c. knowing 1 2; item = ok event }

abbrev from_peer : Bytes → Yielded ℕ ℕ
from_peer contents =
    yielded (json_message (2 ∷ []) (record { contents = contents }) (some session.session_id))

signs :
    sign adding offline 4
      (λ index participants. some 7)
      parameters
      []
      (from_peer (1 ∷ 2 ∷ 3 ∷ []) ∷ [])
      (from_peer (6 ∷ 2 ∷ 0 ∷ []) ∷ [])
      (from_peer (1 ∷ 2 ∷ 8 ∷ []) ∷ [])
      (some 101)
      (options 1)
      none
      (yielded (session_active session) ∷ [])
      []
      (yielded Event.close ∷ [])
    ≡ done (some (record { signature = 12; public_key = 7 ∷ []; address = 48 ∷ 120 ∷ 1 ∷ [] }))
unfolding sign sign_in_session flow_then join_session drive new_participant_bridge
    participant_proceed to_numbers of_numbers participant_incoming participant_finish
    new_presign_bridge machine_proceed machine_incoming machine_finish new_signature_bridge
    online_proceed online_incoming online_finish close_down is_some eq_list get insert
    encrypt_peer_channel split counted
signs = refl

sign-IsSigned_example :
    (completed : ℕ) × ((m : ℕ) × (offline.pick_output m ≡ some (some completed)))
    × IsSigned adding completed []
        (record { signature = 12; public_key = 7 ∷ []; address = 48 ∷ 120 ∷ 1 ∷ [] })
sign-IsSigned_example =
    sign-IsSigned adding offline 4 (λ index participants. some 7) parameters []
      (from_peer (1 ∷ 2 ∷ 3 ∷ []) ∷ []) (from_peer (6 ∷ 2 ∷ 0 ∷ []) ∷ [])
      (from_peer (1 ∷ 2 ∷ 8 ∷ []) ∷ []) (some 101) (options 1) none
      (yielded (session_active session) ∷ []) [] (yielded Event.close ∷ [])
      (record { signature = 12; public_key = 7 ∷ []; address = 48 ∷ 120 ∷ 1 ∷ [] }) signs
