-- ===== src/Examples/Server.antt =====
-- A server of server/src with one or two clients.
use mpc_sdk_framework.Prelude.{
  ℕ, suc, ◌≡◌, ◌↔◌, ◌⊎◌, refl, true, false, [], ◌∷◌, Option, none, some, get, remove, eq_list,
  nat_eq, list_eq, arith,
}
use mpc_sdk_framework.Messages.{
  Bytes, Uuid, SealedEnvelope, RequestMessage, ResponseMessage, server_handshake, initiator,
  peer_message, close_session, blob,
}
use mpc_sdk_framework.Wire.Carries.{Carries}
use mpc_sdk_framework.Wire.LittleEndian.{little_endian, little_endian-IsFaithful}
use mpc_sdk_framework.Encoding.Encode.{encode_response}
use mpc_sdk_framework.Encoding.Decode.{decode_response}
use mpc_sdk_framework.Encoding.RoundTrip.Messages.{decode_response-encode_response}
use mpc_sdk_framework.Channel.Noise.{HandshakeState, transport}
use mpc_sdk_framework.Channel.Counter.{counter}
use mpc_sdk_framework.Meetings.{Meeting, get_meeting}
use mpc_sdk_framework.Sessions.{Session, get_session, remove_session}
use mpc_sdk_framework.Server.Config.{ServerConfig, is_forbidden, listed, is_forbidden_iff}
use mpc_sdk_framework.Server.State.{Connection, ServerState, World, done, write_connection}
use mpc_sdk_framework.Server.Send.{Runtime}
use mpc_sdk_framework.Server.Lifecycle.{upgrade, purge_expired}
use mpc_sdk_framework.Server.Service.{service, finish_session}
use mpc_sdk_framework.Server.Requests.{handle_request, answer_error}
use mpc_sdk_framework.Server.Reaping.{deadline, IsLive, purge_expired-exact}
use mpc_sdk_framework.Server.Closing.{service-removed}
use mpc_sdk_framework.Server.Relaying.{handle_request-relayed, MayRelay, IsSent}
use mpc_sdk_framework.Server.Wiring.Handshake.{IsWired}
use mpc_sdk_framework.Server.Wiring.Reachable.{here, step, upgraded, answered, Reachable-IsWired}

-- A handshake that counts its messages.
instance abbrev pub handshakes : HandshakeState ℕ ℕ
handshakes = record {
  write = λ h payload size. (some (h ∷ []), suc h);
  read = λ h message room. (some [], suc h);
  into_transport_mode = λ h. some h;
}

instance abbrev pub runtime : Runtime
runtime = record { deflate = λ buffer. some buffer; to_string = λ e. [] }

abbrev config : ServerConfig
config = record {
  session = record { timeout = 300; interval = 900; wait_interval = 15; wait_timeout = 300 };
  allow = some ((1 ∷ []) ∷ []);
  deny = none;
}

abbrev kept_session : Session
kept_session = record {
  owner_key = 1 ∷ [];
  participant_keys = (2 ∷ []) ∷ [];
  connections = [];
  last_access = 5;
}

abbrev empty_server : ServerState
empty_server = record {
  config = config;
  pending = [];
  active = [];
  meetings = [];
  sessions = (9 ∷ [], kept_session) ∷ [];
}

abbrev socket : Uuid → Connection ℕ ℕ
socket id = record {
  id = id;
  public_key = id;
  outgoing = [];
  closed = false;
  state = some (transport 0);
}

abbrev start : World ℕ ℕ
start = record { server = empty_server; connections = socket; tasks = [] }

-- Two clients, each with a connection that its key names.
abbrev pub two_clients : World ℕ ℕ
two_clients = record start {
  server = record empty_server { active = (1 ∷ [], 1 ∷ []) ∷ (2 ∷ [], 2 ∷ []) ∷ [] };
}

abbrev builder : Bytes → Option ℕ
builder key = some 0

abbrev hello : RequestMessage
hello = RequestMessage.transparent (server_handshake (initiator 1 (6 ∷ [])))

abbrev pending_client : World ℕ ℕ
pending_client = (upgrade builder (7 ∷ []) (1 ∷ []) start).1

abbrev active_client : World ℕ ℕ
active_client = (answer_error (7 ∷ []) (handle_request [] 0 (7 ∷ []) hello pending_client)).1

Reachable-IsWired_example : IsWired active_client
unfolding get
Reachable-IsWired_example = Reachable-IsWired builder start active_client refl (
    step start pending_client active_client
      (step start start pending_client (here start) (upgraded (7 ∷ []) (1 ∷ []) (λ k e. cc e)))
      (answered [] 0 (7 ∷ []) hello))

is_forbidden_iff_example : (is_forbidden config (1 ∷ []) ≡ false) ↔ (
    (listed (1 ∷ []) none ≡ false)
    × ((config.allow ≡ none) ⊎ (listed (1 ∷ []) config.allow ≡ true)))
is_forbidden_iff_example = is_forbidden_iff config (1 ∷ [])

abbrev kept_meeting : Meeting
kept_meeting = record { slots = []; last_access = 7 }

abbrev stale_meeting : Meeting
stale_meeting = record { slots = []; last_access = 4 }

abbrev reaped_server : ServerState
reaped_server = record empty_server {
  meetings = (8 ∷ [], stale_meeting) ∷ (9 ∷ [], kept_meeting) ∷ [];
}

purge_expired-exact_example :
    ((get_meeting (9 ∷ []) (purge_expired 1000000 300005 300006 reaped_server).meetings
        ≡ some kept_meeting)
      ↔ ((get_meeting (9 ∷ []) reaped_server.meetings ≡ some kept_meeting)
          × IsLive 1000000 300005 (deadline 300 7)))
    × ((get_session (9 ∷ []) (purge_expired 1000000 300005 300006 reaped_server).sessions
          ≡ some kept_session)
        ↔ ((get_session (9 ∷ []) reaped_server.sessions ≡ some kept_session)
            × IsLive 1000000 300006 (deadline 300 5)))
    × ((purge_expired 1000000 300005 300006 reaped_server).active ≡ [])
unfolding get eq_list
purge_expired-exact_example =
    purge_expired-exact 1000000 300005 300006 reaped_server (9 ∷ []) kept_meeting kept_session
      (refl, (refl, tt)) (refl, tt)

service-removed_example :
    (close_session (9 ∷ []) ≡ close_session (9 ∷ [])) × ((1 ∷ []) ≡ kept_session.owner_key)
unfolding get_session service finish_session remove_session get remove eq_list
service-removed_example =
    service-removed [] 0 (1 ∷ []) (1 ∷ []) (close_session (9 ∷ [])) two_clients (9 ∷ [])
      kept_session refl refl

abbrev envelope : SealedEnvelope
envelope = record { encoding = blob; chunks = []; broadcast = false }

abbrev relayed : ResponseMessage
relayed = ResponseMessage.opaque (peer_message (1 ∷ []) none envelope)

abbrev relayed_bytes : Carries (encode_response relayed) decode_response relayed
relayed_bytes =
    decode_response-encode_response little_endian-IsFaithful relayed
      (omega arith, tt, (tt, omega arith, tt))

abbrev relayed_world : World ℕ ℕ
relayed_world =
    (write_connection (2 ∷ []) (record (socket (2 ∷ [])) { outgoing = relayed_bytes.bytes ∷ [] })
      two_clients).1

is_relayed :
    handle_request [] 8
      (1 ∷ [])
      (RequestMessage.opaque (peer_message (2 ∷ []) none envelope))
      two_clients
    ≡ (done tt, relayed_world)
unfolding handle_request get eq_list
is_relayed = rw (relayed_bytes.written) refl

handle_request-relayed_example :
    (peer : Uuid) × (u : World ℕ ℕ) × (get (2 ∷ []) two_clients.server.active ≡ some peer)
    × MayRelay two_clients (2 ∷ []) none
    × (u.connections ≡ two_clients.connections)
    × IsSent peer (ResponseMessage.opaque (peer_message (1 ∷ []) none envelope)) u relayed_world
handle_request-relayed_example =
    handle_request-relayed [] 8 (1 ∷ []) (2 ∷ []) none envelope two_clients relayed_world is_relayed
