-- ===== src/Client/Spreading.antt =====
-- When `relay_broadcast` of client/src/client.rs comes to its end.
use mpc_sdk_framework.Prelude.{
  ◌+◌, ◌^◌, ◌<◌, ◌≤◌, ◌≡◌, refl, true, List, [], ◌∷◌, some, get, insert, get-insert, nat_eq,
  list_eq, ◌==◌, Bool-cases, inl, inr, All, length, length-append, arith,
}
use mpc_sdk_framework.Messages.{Bytes, SessionId, Encoding}
use mpc_sdk_framework.Encoding.Valid.{IsEncoding}
use mpc_sdk_framework.Channel.Noise.{TransportState, IsChannel, transport}
use mpc_sdk_framework.Channel.Envelopes.{peer_channel_delivers}
use mpc_sdk_framework.Actions.{done, act_then, ◌>>=◌, ◌>>◌, pure}
use mpc_sdk_framework.Client.State.{Client}
use mpc_sdk_framework.Client.Calls.{relay_broadcast}
use mpc_sdk_framework.Client.Peering.{relay_sends}

module _ {H T : Type 0} (Paired : T → T → Type 0) where
  -- A peer in transport mode, whose transport state keeps pace with one at its other end.
  pub record HasPeer (c : Client H T) (key : Bytes) : Type 0 where
    pub here : T
    pub there : T
    pub known : get key c.peers ≡ some (transport here)
    pub paired : Paired here there

  still_peer :
      (key k : Bytes) (a b : T) (c d : Client H T)
      → d.peers ≡ insert key (transport a) c.peers
      → Paired a b
      → HasPeer c k
      → HasPeer d k
  still_peer key k a b c d same paired h = elim (Bool-cases (key == k)) [
    | inl changed ↦ record {
      here = a;
      there = b;
      known = rw (same, get-insert key k (transport a) c.peers, changed) refl;
      paired = paired;
    }
    | inr other ↦ record {
      here = h.here;
      there = h.there;
      known = rw (same, get-insert key k (transport a) c.peers, other) h.known;
      paired = h.paired;
    }
  ]

  still_peers :
      (key : Bytes) (a b : T) (c d : Client H T) (keys : List Bytes)
      → d.peers ≡ insert key (transport a) c.peers
      → Paired a b
      → All (HasPeer c) keys
      → All (HasPeer d) keys
  still_peers key a b c d [] same paired h = tt
  still_peers key a b c d (k ∷ keys) same paired h =
      (still_peer key k a b c d same paired h.0, still_peers key a b c d keys same paired h.1)

module _ {H T : Type 0} {Paired : T → T → Type 0} ⦃noise : TransportState T⦄
    (channel : IsChannel noise Paired) where
  pub relay_broadcast-done :
      (session_id : SessionId) (keys : List Bytes) (payload : Bytes) (encoding : Encoding)
      (c : Client H T)
      → length payload < 2 ^ 32
      → IsEncoding encoding
      → c.listening ≡ true
      → length c.outbound + length keys ≤ 32
      → All (HasPeer Paired c) keys
      → (relay_broadcast session_id keys payload encoding c).0 ≡ done tt
  unfolding relay_broadcast ◌>>◌ ◌>>=◌ act_then pure
  relay_broadcast-done session_id [] payload encoding c small valid hears room h = refl
  relay_broadcast-done session_id (key ∷ keys) payload encoding c small valid hears room h =
      let (envelope, a', b', encrypted, carried, broadcasts, clear, paired') =
        peer_channel_delivers {H = H} channel key payload encoding true (some session_id) h.0.here
          h.0.there h.0.paired small valid in
      let sent =
        relay_sends key payload encoding true (some session_id) envelope h.0.here a' c
          (record { listening = hears; room = omega arith }) h.0.known encrypted in
      rw sent (
        relay_broadcast-done session_id keys payload encoding _ small valid hears
          (rw (length-append c.outbound _) (omega arith))
          (still_peers Paired key a' b' c _ keys refl paired' h.1))
