-- ===== src/Sessions/Active.antt =====
-- `Session::is_active` of protocol/src/protocol.rs, and the connections that the clients register.
use mpc_sdk_framework.Prelude.{
  ◌≡◌, ◌≢◌, ◌↔◌, refl, sym, true, ◌||◌, List, [], ◌∷◌, arith, contains, contains-set_of, set_of,
  contains_self, nat_eq, list_eq, pair_eq, eq_list_iff,
}
use mpc_sdk_framework.Messages.{Bytes, SessionState}
use mpc_sdk_framework.Sessions.State.{connections}
use mpc_sdk_framework.Sessions.Entry.{
  Session, public_keys, is_connected, check_connection, all_connected, is_active,
}
use mpc_sdk_framework.Sessions.Mesh.{connections_some}

-- `peer` is connected to each of `keys` but itself.
abbrev ConnectedTo : List (Bytes × Bytes) → Bytes → List Bytes → Type 0
ConnectedTo cs peer keys =
    (key : Bytes) → contains key keys ≡ true → key ≢ peer → is_connected cs peer key ≡ true

check_connection→ :
    (cs : List (Bytes × Bytes)) (peer : Bytes) (keys : List Bytes) (key : Bytes)
    → check_connection cs peer keys ≡ true
    → contains key keys ≡ true
    → key ≢ peer
    → is_connected cs peer key ≡ true
unfolding check_connection contains
check_connection→ cs peer [] key h c ne = cc
check_connection→ cs peer (k ∷ keys) key h c ne =
    ground (arith, eq_list_iff k key, eq_list_iff k peer, check_connection→ cs peer keys key)

-- What holds of all elements holds of those behind the first.
contains_cons :
    (key k : Bytes) (keys : List Bytes) → contains key keys ≡ true → contains key (k ∷ keys) ≡ true
unfolding contains
contains_cons key k keys h = ground arith

check_connection← :
    (cs : List (Bytes × Bytes)) (peer : Bytes) (keys : List Bytes)
    → ConnectedTo cs peer keys
    → check_connection cs peer keys ≡ true
unfolding check_connection
check_connection← cs peer [] h = refl
check_connection← cs peer (k ∷ keys) h =
    let rest = check_connection← cs peer keys (λ key c. h key (contains_cons key k keys c)) in
    ground (arith, rest, eq_list_iff k peer, h k (contains_self k keys))

all_connected→ :
    (cs : List (Bytes × Bytes)) (everyone keys : List Bytes) (peer : Bytes)
    → all_connected cs everyone keys ≡ true
    → contains peer keys ≡ true
    → check_connection cs peer everyone ≡ true
unfolding all_connected contains
all_connected→ cs everyone [] peer h c = cc
all_connected→ cs everyone (k ∷ keys) peer h c =
    ground (arith, eq_list_iff k peer, all_connected→ cs everyone keys peer)

all_connected← :
    (cs : List (Bytes × Bytes)) (everyone keys : List Bytes)
    → ((peer : Bytes) → contains peer keys ≡ true → check_connection cs peer everyone ≡ true)
    → all_connected cs everyone keys ≡ true
unfolding all_connected
all_connected← cs everyone [] h = refl
all_connected← cs everyone (k ∷ keys) h =
    let rest = all_connected← cs everyone keys (λ peer c. h peer (contains_cons peer k keys c)) in
    ground (arith, rest, h k (contains_self k keys))

-- A session is active exactly when any two different participants, its owner among them, are
-- connected in one direction or the other.
pub is_active_iff :
    (s : Session)
    → (is_active s ≡ true) ↔ (
        (a b : Bytes)
        → contains a (public_keys s) ≡ true
        → contains b (public_keys s) ≡ true
        → b ≢ a
        → is_connected s.connections a b ≡ true)
unfolding is_active
is_active_iff s =
    let cs = s.connections in
    let everyone = public_keys s in
    (
      λ h a b ca cb ne.
          check_connection→ cs a everyone b (all_connected→ cs everyone everyone a h ca) cb ne,
      λ h.
          all_connected← cs everyone everyone
            λ a ca. check_connection← cs a everyone λ b cb ne. h a b ca cb ne,
    )

same_members :
    (s : Session) (state : SessionState) (keys : List Bytes) (key : Bytes)
    → state.all_participants ≡ s.owner_key ∷ keys
    → s.participant_keys ≡ set_of [] keys
    → contains key (public_keys s) ≡ contains key state.all_participants
unfolding public_keys contains
same_members s state keys key view members = rw (view, members, contains-set_of key keys [])

connected :
    (s : Session) (state : SessionState) (a b : Bytes)
    → (contains b (connections state a) || contains a (connections state b)) ≡ true
    → (contains b (connections state a) ≡ true → contains (a, b) s.connections ≡ true)
    → (contains a (connections state b) ≡ true → contains (b, a) s.connections ≡ true)
    → is_connected s.connections a b ≡ true
unfolding is_connected
connected s state a b some_way ab ba = ground arith

-- A session that the server made of an owner and the requested keys becomes active once every
-- participant has registered the connections that its own view of the session tells it to make.
pub is_active_registered :
    (s : Session) (state : SessionState) (keys : List Bytes)
    → state.all_participants ≡ s.owner_key ∷ keys
    → s.participant_keys ≡ set_of [] keys
    → ((a b : Bytes)
        → contains a state.all_participants ≡ true
        → contains b (connections state a) ≡ true
        → contains (a, b) s.connections ≡ true)
    → is_active s ≡ true
is_active_registered s state keys view members registered = (is_active_iff s).1 λ a b ca cb ne.
    let ca' : contains a state.all_participants ≡ true =
      rw (← same_members s state keys a view members) ca in
    let cb' : contains b state.all_participants ≡ true =
      rw (← same_members s state keys b view members) cb in
    connected s state a b (connections_some state a b (λ e. ne (sym e)) ca' cb')
      (registered a b ca') (registered b a cb')
