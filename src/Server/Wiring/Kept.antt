-- ===== src/Server/Wiring/Kept.antt =====
-- What a call does to the active connections, their public keys and their protocol states, and how
-- this composes along the handlers of server/src/service.rs.
use mpc_sdk_framework.Prelude.{
  ◌≡◌, refl, Bool, true, false, [], ◌∷◌, ◌++◌, Option, none, some, nat_eq, list_eq, ◌==◌,
  if◌then◌else◌, beq→eq, Option-cases, inl, inr,
}
use mpc_sdk_framework.Messages.{Bytes, Uuid}
use mpc_sdk_framework.Wire
use mpc_sdk_framework.Wire.{ok_or, Result, ok, err, panic, BinaryStream}
use mpc_sdk_framework.Channel.Noise.{ProtocolState}
use mpc_sdk_framework.Server.State.{
  Error, message_mpsc_send, Outcome, done, failed, panicked, Connection, World, Serve, serve_then,
  ◌>>=◌, pure, fail, lift, lift_io, read_state, read_connection, write_connection, log_error,
}
use mpc_sdk_framework.Server.Send.{Runtime, send, with_state, is_transport}

-- The contents of a connection before and after.
pub record KeptConnection {H T : Type 0} (c c' : Connection H T) : Type 0 where
  pub public_key : c'.public_key ≡ c.public_key
  pub state : is_transport c.state ≡ true → is_transport c'.state ≡ true

pub record Kept {H T : Type 0} (w w' : World H T) : Type 0 where
  pub active : w'.server.active ≡ w.server.active
  pub connections : (id : Uuid) → KeptConnection (w.connections id) (w'.connections id)

pub record Keeps {H T A : Type 0} (m : Serve H T A) : Type 0 where
  pub kept : (w : World H T) → Kept w (m w).1

module _ {H T : Type 0} where
  pub Kept-refl : (w : World H T) → Kept w w
  Kept-refl w = record {
    active = refl;
    connections = λ id. record { public_key = refl; state = λ h. h };
  }

  -- What changes neither the active connections nor the contents of any.
  pub Kept-by :
      (w w' : World H T)
      → w'.server.active ≡ w.server.active
      → w'.connections ≡ w.connections
      → Kept w w'
  Kept-by w w' a c = record {
    active = a;
    connections = λ id. rw c (record { public_key = refl; state = λ h. h });
  }

  pub Kept-trans : {u v w : World H T} → Kept u v → Kept v w → Kept u w
  Kept-trans h k = record {
    active = cc (h.active, k.active);
    connections = λ id. record {
      public_key = cc ((h.connections id).public_key, (k.connections id).public_key);
      state = λ e. (k.connections id).state ((h.connections id).state e);
    };
  }

  written_kept :
      (before c : Connection H T) (b : Bool)
      → (b ≡ true → KeptConnection before c)
      → KeptConnection before (if b then c else before)
  written_kept before c true h = h refl
  written_kept before c false h = record { public_key = refl; state = λ h. h }

  pub write-Kept :
      (conn : Uuid) (c : Connection H T) (w : World H T)
      → KeptConnection (w.connections conn) c
      → Kept w (write_connection conn c w).1
  unfolding write_connection
  write-Kept conn c w h = record {
    active = refl;
    connections =
        λ id. written_kept (w.connections id) c (conn == id) (λ e. rw (← beq→eq conn id e) h);
  }

module _ {H T A B : Type 0} where
  pub then-Kept :
      (w : World H T) (r : Outcome A × World H T) (k : A → Serve H T B)
      → Kept w r.1
      → ((a : A) → Keeps (k a))
      → Kept w (serve_then r k).1
  unfolding serve_then
  then-Kept w (done a, w') k h f = Kept-trans h ((f a).kept w')
  then-Kept w (failed e, w') k h f = h
  then-Kept w (panicked, w') k h f = h

  pub Keeps-then :
      (m : Serve H T A) (k : A → Serve H T B) → Keeps m → ((a : A) → Keeps (k a)) → Keeps (m >>= k)
  unfolding ◌>>=◌
  Keeps-then m k h f = record { kept = λ w. then-Kept w (m w) k (h.kept w) f }

module _ {H T B : Type 0} where
  pub Keeps-choice : (b : Bool) (m n : Serve H T B) → Keeps m → Keeps n → Keeps (if b then m else n)
  Keeps-choice true m n h k = h
  Keeps-choice false m n h k = k

module _ {H T A B : Type 0} where
  pub Keeps-lookup :
      (o : Option A) (m : Serve H T B) (k : A → Serve H T B)
      → Keeps m
      → ((a : A) → Keeps (k a))
      → Keeps (elim o as (λ x. Serve H T B) [ none ↦ m | some a ↦ k a ])
  Keeps-lookup none m k h f = h
  Keeps-lookup (some a) m k h f = f a

module _ {H T : Type 0} where
  pub Keeps-pure : {A : Type 0} (a : A) → Keeps (pure {H = H} {T = T} a)
  unfolding pure
  Keeps-pure a = record { kept = Kept-refl }

  pub Keeps-fail : (A : Type 0) (e : Error) → Keeps (fail {H = H} {T = T} {A = A} e)
  unfolding fail
  Keeps-fail A e = record { kept = Kept-refl }

  pub Keeps-lift : {A : Type 0} (r : Result A) → Keeps (lift {H = H} {T = T} r)
  unfolding lift
  Keeps-lift (ok a) = record { kept = Kept-refl }
  Keeps-lift (err e) = record { kept = Kept-refl }
  Keeps-lift panic = record { kept = Kept-refl }

  pub Keeps-lift_io : {A : Type 0} (r : Result A) → Keeps (lift_io {H = H} {T = T} r)
  unfolding lift_io
  Keeps-lift_io (ok a) = record { kept = Kept-refl }
  Keeps-lift_io (err e) = record { kept = Kept-refl }
  Keeps-lift_io panic = record { kept = Kept-refl }

  pub Keeps-read_state : Keeps (read_state {H = H} {T = T})
  unfolding read_state
  Keeps-read_state = record { kept = Kept-refl }

  pub Keeps-read_connection : (conn : Uuid) → Keeps (read_connection {H = H} {T = T} conn)
  unfolding read_connection
  Keeps-read_connection conn = record { kept = Kept-refl }

  pub Kept-log_error :
      (w : World H T) (r : Outcome Unit × World H T) → Kept w r.1 → Kept w (log_error r).1
  unfolding log_error
  Kept-log_error w (done a, w') h = h
  Kept-log_error w (failed e, w') h = h
  Kept-log_error w (panicked, w') h = h

  pub Keeps-send :
      ⦃runtime : Runtime⦄ (conn : Uuid) (buffer : Bytes) → Keeps (send {H = H} {T = T} conn buffer)
  unfolding send ◌>>=◌ serve_then read_connection fail
  Keeps-send ⦃runtime⦄ conn buffer =
      Keeps-then _ _ (Keeps-lift (ok_or (runtime.deflate buffer) Wire.io))
        (λ deflated. record { kept = λ w. sent (w.connections conn).closed deflated w })
    where
      sent :
          (closed : Bool) (deflated : Bytes) (w : World H T)
          → Kept w
              ((if closed
                  then fail message_mpsc_send
                  else write_connection conn (record (w.connections conn) {
                    outgoing = (w.connections conn).outgoing ++ deflated ∷ [];
                  }))
                w).1
      sent true deflated w = Kept-refl w
      sent false deflated w =
          write-Kept conn
            (record (w.connections conn) {
              outgoing = (w.connections conn).outgoing ++ deflated ∷ [];
            })
            w (record { public_key = refl; state = λ h. h })

  pub Keeps-with_state :
      {A : Type 0} (conn : Uuid) (f : ProtocolState H T → Result A × ProtocolState H T)
      → ((s : ProtocolState H T)
          → is_transport (some s) ≡ true
          → is_transport (some (f s).1) ≡ true)
      → Keeps (with_state conn f)
  unfolding with_state
  Keeps-with_state conn f h = record { kept = λ w. changed w }
    where
      changed : (w : World H T) → Kept w (with_state conn f w).1
      changed w = elim (Option-cases (w.connections conn).state) [
        | inl p ↦ rw (p, with_state) (Kept-refl w)
        | inr (s, p) ↦
            let c : Connection H T = record (w.connections conn) { state = some (f s).1 } in
            rw (p, with_state)
              (then-Kept w (write_connection conn c w) (λ _. lift (f s).0)
                (write-Kept conn c w (record { public_key = refl; state = λ e. h s (rw (← p) e) }))
                (λ _. Keeps-lift (f s).0))
      ]
