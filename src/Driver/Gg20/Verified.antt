-- ===== src/Driver/Gg20/Verified.antt =====
-- What a signature is that `sign` of driver/src/gg20/mod.rs ends with.
use mpc_sdk_framework.Prelude.{
  ℕ, ◌≡◌, refl, ap, true, List, [], ◌∷◌, Option, none, some, nat_eq, Bool-cases, Option-cases, inl,
  inr,
}
use mpc_sdk_framework.Messages.{Bytes, SessionState}
use mpc_sdk_framework.Wire.{BinaryStream}
use mpc_sdk_framework.Channel.Noise.{TransportState, HandshakeState}
use mpc_sdk_framework.Actions.{Outcome, done, unwrap}
use mpc_sdk_framework.Client.State.{Client, ClientOptions}
use mpc_sdk_framework.Client.Calls.{public_key}
use mpc_sdk_framework.Rounds.{new_fixed}
use mpc_sdk_framework.Client.Options.{Builder, Codecs}
use mpc_sdk_framework.Driver.State
use mpc_sdk_framework.Driver.State.{
  Error, Msg, RoundMsg, non_zero, ProtocolDriver, Serde, from_round,
}
use mpc_sdk_framework.Driver.Bridge.{Bridge}
use mpc_sdk_framework.Driver.Waiting.{Stream}
use mpc_sdk_framework.Driver.Outputs.{IsSound}
use mpc_sdk_framework.Driver.Holding.{Holds}
use mpc_sdk_framework.Driver.Gg20.Machines.{StateMachine}
use mpc_sdk_framework.Driver.Gg20.Online.{
  Signing, Signature, SignOnlineDriver, address, new_online, online_driver, online_incoming,
  online_proceed, online_finish,
}
use mpc_sdk_framework.Driver.Gg20.Starting.{
  Parameters, party_of, outcome_then, new_signature_bridge,
}
use mpc_sdk_framework.Driver.Gg20.Flows.{drive, sign_in_session, sign}
use mpc_sdk_framework.Driver.Gg20.Driving.{
  outcome_cases, flow_cases, drive-given, IsOutput, machine_driver-IsSound,
}

module _ {C N P K S : Type 0} (signing : Signing C N P K S) (completed : C) (message : Bytes) where
  -- A signature of the message under the public key of a completed offline stage, with that key and
  -- its address.
  pub record IsSigned (result : Signature S) : Type 0 where
    pub verified :
        signing.verify result.signature (signing.public_key completed) (signing.from_bytes message)
        ≡ true
    pub of_key : result.public_key ≡ signing.to_bytes (signing.public_key completed)
    pub addressed : address signing result.public_key ≡ some result.address

  abbrev IsOf : SignOnlineDriver N P K → Type 0
  IsOf d = (d.public_key ≡ signing.public_key completed) × (d.data_ ≡ signing.from_bytes message)

  proceed_kept : (d : SignOnlineDriver N P K) → (online_proceed signing d).1 ≡ d
  unfolding online_proceed unwrap
  proceed_kept d =
      elim (Option-cases (
        from_round 1
          (record { sender = d.party_number; receiver = none; body = d.partial } ∷ []))) [
            | inl e ↦ rw e refl
            | inr (ms, e) ↦ rw e refl
          ]

  finished :
      (d : SignOnlineDriver N P K) (result : Signature S)
      → IsOf d
      → online_finish signing d ≡ done result
      → IsSigned result
  unfolding online_finish
  finished d result (key, data_) e = elim (Option-cases (signing.complete d.sign d.partials)) [
    | inl failed_ ↦ cc (rw (online_finish, failed_) at e)
    | inr (signature, made) ↦
        let e1 : _ = rw (online_finish, made) at e in
        elim (Bool-cases (signing.verify signature d.public_key d.data_)) [
          | inr refused ↦ cc (rw refused at e1)
          | inl accepted ↦
              let e2 : _ = rw accepted at e1 in
              elim (Option-cases (address signing (signing.to_bytes d.public_key))) [
                | inl unmade ↦ cc (rw unmade at e2)
                | inr (text, known) ↦
                    let e3 : _ = rw known at e2 in
                    let same : record {
                      signature = signature;
                      public_key = signing.to_bytes d.public_key;
                      address = text;
                    }
                        ≡ result =
                      cc e3 in
                    rw (← same) (record {
                      verified = rw (← key, ← data_) accepted;
                      of_key = rw key refl;
                      addressed = known;
                    })
              ]
        ]
  ]

  pub online_driver-IsSound : IsSound (online_driver signing) IsOf IsSigned
  unfolding online_incoming
  online_driver-IsSound = record {
    incoming = λ m d p. p;
    proceeds = λ d p. rw (proceed_kept d) p;
    finishes = finished;
  }

  new_online-IsOf :
      (n : ℕ) (d : SignOnlineDriver N P K)
      → new_online signing n completed message ≡ done d
      → IsOf d
  unfolding new_online
  new_online-IsOf n d e = elim (Option-cases (signing.new (signing.from_bytes message) completed)) [
    | inl refused ↦ cc (rw (new_online, refused) at e)
    | inr (pair, made) ↦ let f : _ = rw (new_online, made) at e in (cc f, cc f)
  ]

  module _ {H T : Type 0} ⦃noise : TransportState T⦄ ⦃partials : Serde P⦄ where
    started :
        (c : Client H T) (parameters : Parameters) (session : SessionState)
        (b : Bridge H T (SignOnlineDriver N P K) P)
        → new_signature_bridge signing c parameters session completed message ≡ done b
        → Holds IsOf b
    unfolding new_signature_bridge
    started c parameters session b e d holds =
        let (number, _, e1) =
          outcome_cases (party_of session (public_key c))
            (λ number. outcome_then (new_online signing number completed message) (bridge c)) e in
        let (d1, made, e2) =
          outcome_cases (new_online signing number completed message) (bridge c) e1 in
        let whole : record {
          transport = c;
          buffer = new_fixed 1 parameters.threshold;
          driver = some d1;
          session = session;
        }
            ≡ b =
          cc e2 in
        let found : some d1 ≡ b.driver = ap (λ x. x.driver) whole in
        let same : d1 ≡ d = cc (found, holds) in new_online-IsOf number d (rw (← same) made)
      where
        bridge :
            Client H T
            → SignOnlineDriver N P K
            → Outcome Error (Bridge H T (SignOnlineDriver N P K) P)
        bridge c driver = done (record {
          transport = c;
          buffer = new_fixed 1 parameters.threshold;
          driver = some driver;
          session = session;
        })

    -- A wait for the signature driver gives signatures only.
    driven :
        (c : Client H T) (parameters : Parameters) (session : SessionState) (stream : Stream H T)
        (x : Client H T × Signature S)
        → drive
            (online_driver signing)
            stream
            (new_signature_bridge signing c parameters session completed message)
          ≡ done (some x)
        → IsSigned x.1
    driven c parameters session stream x =
        drive-given online_driver-IsSound stream
          (new_signature_bridge signing c parameters session completed message) x
          (started c parameters session)

module _ {H T C N P K S : Type 0} ⦃bin : BinaryStream⦄ ⦃noise : TransportState T⦄
    ⦃handshakes : HandshakeState H T⦄ ⦃builder : Builder H⦄ ⦃codecs : Codecs⦄
    (signing : Signing C N P K S) {M B : Type 0} ⦃indices : Serde ℕ⦄ ⦃offline : Serde B⦄
    ⦃partials : Serde P⦄ (machine : StateMachine M B C) (i : ℕ)
    (new_offline : ℕ → List ℕ → Option M) (parameters : Parameters) (message : Bytes)
    (gathering presigning signing_stream : Stream H T) where
  in_session-IsSigned :
      (transport : Client H T) (session : SessionState) (x : Client H T × Signature S)
      → sign_in_session signing machine i new_offline parameters message gathering presigning
          signing_stream transport session
        ≡ done (some x)
      → (completed : C) × IsOutput machine completed × IsSigned signing completed message x.1
  unfolding sign_in_session
  in_session-IsSigned transport session x e = elim (Option-cases (non_zero i)) [
    | inl zero ↦ cc (rw (sign_in_session, zero) at e)
    | inr (index, non) ↦
        let e1 : _ = rw (sign_in_session, non) at e in
        let (gathered, _, e2) = flow_cases _ _ e1 in
        let (presigned, offline_, e3) = flow_cases _ _ e2 in
        (
          presigned.1,
          drive-given (machine_driver-IsSound machine State.sign_offline) presigning _ presigned
              (λ b made d holds. tt) offline_,
          driven signing presigned.1 message presigned.0 parameters session signing_stream x e3,
        )
  ]

  -- A signature with which the flow `sign` ends, whatever its streams and its machines do, verifies
  -- for the message under the public key of a completed offline stage that the offline machine gave,
  -- and is given with that key and the address of it.
  pub sign-IsSigned :
      (status : Option ℕ) (options : ClientOptions) (participants : Option (List Bytes))
      (joining finishing closing : Stream H T) (result : Signature S)
      → sign signing machine i new_offline parameters message gathering presigning signing_stream
          status options participants joining finishing closing
        ≡ done (some result)
      → (completed : C) × IsOutput machine completed × IsSigned signing completed message result
  unfolding sign
  sign-IsSigned status options participants joining finishing closing result e =
      let (joined, _, e1) = flow_cases _ _ e in
      let (signed, run, e2) = flow_cases _ _ e1 in
      let (u, _, e3) = flow_cases _ _ e2 in
      let same : signed.1 ≡ result = cc e3 in
      let (completed, output, signed_) = in_session-IsSigned joined.0 joined.1 signed run in
      (completed, output, rw (← same) signed_)
