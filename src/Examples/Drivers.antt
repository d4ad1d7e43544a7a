-- ===== src/Examples/Drivers.antt =====
-- The drivers of driver/src over a client.
use mpc_sdk_framework.Prelude.{
  List, ℕ, ◌≡◌, refl, ◌||◌, [], ◌∷◌, Option, none, some, map, contains, get, insert, eq_list,
  nat_eq, list_eq, arith,
}
use mathlib.Core.List.Perm
use mpc_sdk_framework.Messages.{Bytes, SessionState}
use mpc_sdk_framework.Wire.LittleEndian.{little_endian}
use mpc_sdk_framework.Sessions.{connections}
use mpc_sdk_framework.Channel.Counter.{counter, counted}
use mpc_sdk_framework.Channel.Chunks.{split}
use mpc_sdk_framework.Channel.Envelopes.{encrypt_peer_channel}
use mpc_sdk_framework.Actions.{done}
use mpc_sdk_framework.Client.Calls.{public_key}
use mpc_sdk_framework.Client.Options.{initiator_for}
use mpc_sdk_framework.Client.State.{session_ready}
use mpc_sdk_framework.Driver.State.{RoundMsg, Serde}
use mpc_sdk_framework.Driver.Bridge.{Bridge, execute}
use mpc_sdk_framework.Driver.Waiting.{wait_for_driver}
use mpc_sdk_framework.Driver.Session.{SessionParticipant, participant_handle_event}
use mpc_sdk_framework.Driver.Connecting.{has_peer, participant_handle_ready}
use mpc_sdk_framework.Driver.Gg20.Participants.{
  ParticipantProtocolDriver, participant_driver, participant_proceed, sort,
}
use mpc_sdk_framework.Driver.Gg20.Starting.{Parameters, new_participant_bridge}
use mpc_sdk_framework.Driver.Gg20.Gathering.{Arrival, arrival_item, share_number, IsArrival}
use mpc_sdk_framework.Driver.Gg20.Agreement.{participants_exchanged, participants_agree}
use mpc_sdk_framework.Examples.Server.{handshakes}
use mpc_sdk_framework.Examples.Clients.{builder, codecs, alone, knowing}

-- Broadcasts, as their three numbers.
unfoldable pub to_numbers : RoundMsg ℕ → Option Bytes
to_numbers m = some (m.round ∷ m.sender ∷ m.body ∷ [])

unfoldable pub of_numbers : Bytes → Option (RoundMsg ℕ)
of_numbers (round ∷ sender ∷ body ∷ []) =
    some (record { round = round; sender = sender; receiver = none; body = body })
of_numbers bytes = none

instance abbrev pub numbers : Serde ℕ
numbers = record { to_vec = to_numbers; from_slice = of_numbers }

abbrev pub session : SessionState
session = record { session_id = 7 ∷ []; all_participants = (1 ∷ []) ∷ (2 ∷ []) ∷ [] }

abbrev pub parameters : Parameters
parameters = record { parties = 2; threshold = 1 }

abbrev first : Bridge ℕ ℕ ParticipantProtocolDriver ℕ
first = record {
  transport = knowing 1 2;
  buffer = record { expected = (1, 1) ∷ []; messages = [] };
  driver = some (record { party_number = 1; participants = 4 ∷ []; local_key_index = 4 });
  session = session;
}

abbrev second : Bridge ℕ ℕ ParticipantProtocolDriver ℕ
second = record {
  transport = knowing 2 1;
  buffer = record { expected = (1, 1) ∷ []; messages = [] };
  driver = some (record { party_number = 2; participants = 3 ∷ []; local_key_index = 3 });
  session = session;
}

first_new : new_participant_bridge (knowing 1 2) parameters session 4 ≡ done first
unfolding new_participant_bridge eq_list insert
first_new = refl

first_sends : execute participant_driver first ≡ (done tt, (execute participant_driver first).1)
unfolding execute participant_proceed to_numbers eq_list get encrypt_peer_channel split counted
first_sends = refl

second_new : new_participant_bridge (knowing 2 1) parameters session 3 ≡ done second
unfolding new_participant_bridge eq_list insert
second_new = refl

second_sends : execute participant_driver second ≡ (done tt, (execute participant_driver second).1)
unfolding execute participant_proceed to_numbers eq_list get encrypt_peer_channel split counted
second_sends = refl

-- What each sends the other.
abbrev from_second : Arrival ℕ ℕ
from_second = record {
  left = λ c. c;
  key = 2 ∷ [];
  contents = 1 ∷ 2 ∷ 3 ∷ [];
  message = record { round = 1; sender = 2; receiver = none; body = 3 };
}

abbrev from_first : Arrival ℕ ℕ
from_first = record {
  left = λ c. c;
  key = 1 ∷ [];
  contents = 1 ∷ 1 ∷ 4 ∷ [];
  message = record { round = 1; sender = 1; receiver = none; body = 4 };
}

arrives_second : IsArrival from_second
unfolding of_numbers
arrives_second = record { written = refl; first_round = refl }

arrives_first : IsArrival from_first
unfolding of_numbers
arrives_first = record { written = refl; first_round = refl }

participants_exchanged_example :
    (wait_for_driver participant_driver
      (map (arrival_item session.session_id) (from_second ∷ []))
      first).0
    ≡ done (some (sort (4 ∷ map share_number (from_second ∷ []))))
participants_exchanged_example =
    participants_exchanged (knowing 1 2) parameters session 4 (from_second ∷ []) first
      (execute participant_driver first).1 first_new first_sends (omega arith) (arrives_second, tt)
      refl

participants_agree_example :
    (wait_for_driver participant_driver
      (map (arrival_item session.session_id) (from_second ∷ []))
      first).0
    ≡ (wait_for_driver participant_driver
        (map (arrival_item session.session_id) (from_first ∷ []))
        second).0
unfolding share_number
participants_agree_example =
    participants_agree (knowing 1 2) (knowing 2 1) parameters session session 4 3 (from_second ∷ [])
      (from_first ∷ []) first (execute participant_driver first).1 second
      (execute participant_driver second).1 first_new second_new first_sends second_sends
      (omega arith) (arrives_second, tt) (arrives_first, tt) refl refl (Perm.swap 3 4 [])

abbrev joining : SessionParticipant ℕ ℕ
joining = record { transport = alone 1; session_state = none }

connects :
    participant_handle_event (session_ready session) joining
    ≡ (done none, (participant_handle_event (session_ready session) joining).1)
unfolding participant_handle_event eq_list get initiator_for
connects = refl

participant_handle_ready_example :
    (◌≡◌ {A = Option SessionState} none none)
    × ((participant_handle_event (session_ready session) joining).1.session_state ≡ some session)
    × (has_peer (2 ∷ []) (participant_handle_event (session_ready session) joining).1.transport ≡ (
        contains (2 ∷ []) (connections session (public_key (alone 1)))
        || has_peer (2 ∷ []) (alone 1)))
participant_handle_ready_example =
    participant_handle_ready session joining
      (participant_handle_event (session_ready session) joining).1 none (2 ∷ []) connects

abbrev share : RoundMsg ℕ
share = record { round = 1; sender = 1; receiver = none; body = 4 }
