-- ===== src/Driver/Gg20/Agreement.antt =====
-- The exchange of key share numbers, by `ParticipantDriver` of driver/src/gg20/sign.rs.
use mpc_sdk_framework.Prelude.{
  arith, ℕ, ◌<◌, ◌≡◌, refl, sym, ap, ◌∙◌, List, [], ◌∷◌, map, some, get, insert, nat_eq, list_eq,
  length, ◌==◌, All, Bool-cases, inl, inr,
}
use mathlib.Core.List.{Perm, foldr}
use mathlib.Core.List.Perm
use mpc_sdk_framework.Messages.{SessionState}
use mpc_sdk_framework.Channel.Noise.{TransportState}
use mpc_sdk_framework.Rounds.{RoundBuffer, new_fixed, expected_rounds, or_empty}
use mpc_sdk_framework.Actions.{
  unwrap, Outcome, done, failed, panicked, waiting, act_then, ◌>>=◌, ◌>>◌, read_state,
}
use mpc_sdk_framework.Client.State.{Client}
use mpc_sdk_framework.Client.Calls.{public_key}
use mpc_sdk_framework.Driver.State.{
  Error, Msg, Serde, from_round, round_msg, non_zero, round_receiver, is_broadcast,
}
use mpc_sdk_framework.Driver.Bridge.{
  Bridge, handle_event, on_driver, execute, dispatch_round_messages, send_broadcast, on_transport,
}
use mpc_sdk_framework.Driver.Waiting.{wait_for, wait_for_driver, set_bridge}
use mpc_sdk_framework.Driver.Gg20.Starting.{
  Parameters, new_participant_bridge, outcome_then, party_of,
}
use mpc_sdk_framework.Driver.Gg20.Participants.{
  ParticipantProtocolDriver, new_participant, participant_driver, participant_proceed, sort,
  sorted_insert,
}
use mpc_sdk_framework.Driver.Gg20.Gathering.{
  Arrival, arrival_item, share_number, IsArrival, bodies, bridge, gathers,
}

-- Sorting forgets the order.
sorted_insert_comm :
    (a b : ℕ) (ns : List ℕ)
    → sorted_insert a (sorted_insert b ns) ≡ sorted_insert b (sorted_insert a ns)
unfolding sorted_insert
sorted_insert_comm a b [] = ground arith
sorted_insert_comm a b (n ∷ ns) = ground (arith, sorted_insert_comm a b ns)

sort-foldr : (ns : List ℕ) → sort ns ≡ foldr sorted_insert [] ns
unfolding sort
sort-foldr [] = ground arith
sort-foldr (n ∷ ns) = ap (sorted_insert n) (sort-foldr ns)

sort-eq : (xs ys : List ℕ) → Perm xs ys → sort xs ≡ sort ys
sort-eq xs ys p =
    rw (sort-foldr xs, sort-foldr ys) (Perm.foldr-eq (hlevel) sorted_insert sorted_insert_comm p [])

module _ {H T : Type 0} ⦃noise : TransportState T⦄ ⦃serde : Serde ℕ⦄ where
  -- Sending its own number changes no more of a bridge than its transport.
  executes :
      (c : Client H T) (session : SessionState) (buffer : RoundBuffer (Msg ℕ))
      (d : ParticipantProtocolDriver) (b : Bridge H T ParticipantProtocolDriver ℕ)
      → execute participant_driver (bridge c session buffer d) ≡ (done tt, b)
      → (c' : Client H T) × (b ≡ bridge c' session buffer d)
  unfolding execute ◌>>=◌ act_then on_driver participant_proceed dispatch_round_messages
      send_broadcast read_state on_transport unwrap from_round round_msg non_zero round_receiver
      is_broadcast
  executes c session buffer d b e = elim (Bool-cases (d.party_number == 0)) [
    | inl zero_number ↦ cc (rw (zero_number, unwrap, act_then) at e)
    | inr number ↦ let f : _ = rw (number, unwrap, act_then) at e in (_, sym (ap (λ x. x.1) f))
  ]

  built_from :
      (c : Client H T) (session : SessionState) (buffer : RoundBuffer (Msg ℕ)) (i : ℕ)
      (o : Outcome Error ℕ) (b : Bridge H T ParticipantProtocolDriver ℕ)
      → outcome_then o (λ number. done (bridge c session buffer (new_participant number i)))
        ≡ done b
      → (number : ℕ) × (b ≡ bridge c session buffer (new_participant number i))
  unfolding outcome_then
  built_from c session buffer i (done number) b e = (number, cc e)
  built_from c session buffer i (failed x) b e = cc e
  built_from c session buffer i panicked b e = cc e
  built_from c session buffer i waiting b e = cc e

  waits_for :
      (c : Client H T) (session : SessionState) (n i number : ℕ) (arrivals : List (Arrival H T))
      → 0 < n
      → All IsArrival arrivals
      → length arrivals ≡ n
      → (wait_for set_bridge
          (handle_event participant_driver)
          (map (arrival_item session.session_id) arrivals)
          (bridge c session (new_fixed 1 n) (new_participant number i))).0
        ≡ done (some (sort (i ∷ map share_number arrivals)))
  unfolding new_participant bodies new_fixed expected_rounds insert get or_empty
  waits_for c session n i number [] positive arrived count = absurd (omega arith)
  waits_for c session n i number (a ∷ arrivals) positive arrived count =
      gathers c session n a arrivals [] (new_participant number i) (new_fixed 1 n) arrived refl refl
        (omega arith)

  -- A participant that was started with a positive threshold, and has sent its own number, takes the
  -- messages of as many other participants as the threshold says, whatever its event loop makes of
  -- the client in between: with the last of them the wait ends, and gives its own number and theirs,
  -- sorted.
  pub participants_exchanged :
      (c : Client H T) (parameters : Parameters) (session : SessionState) (i : ℕ)
      (arrivals : List (Arrival H T)) (b b1 : Bridge H T ParticipantProtocolDriver ℕ)
      → new_participant_bridge c parameters session i ≡ done b
      → execute participant_driver b ≡ (done tt, b1)
      → 0 < parameters.threshold
      → All IsArrival arrivals
      → length arrivals ≡ parameters.threshold
      → (wait_for_driver participant_driver (map (arrival_item session.session_id) arrivals) b).0
        ≡ done (some (sort (i ∷ map share_number arrivals)))
  unfolding new_participant_bridge wait_for_driver ◌>>◌ ◌>>=◌ act_then
  participants_exchanged c parameters session i arrivals b b1 new started positive arrived count =
      let (number, made) =
        built_from c session (new_fixed 1 parameters.threshold) i (party_of session (public_key c))
          b new in
      let (c1, sent) =
        executes c session (new_fixed 1 parameters.threshold) (new_participant number i) b1
          (rw made at started) in
      rw (started, act_then, sent)
        (waits_for c1 session parameters.threshold i number arrivals positive arrived count)

  -- Two participants of such an exchange, in any order of what they receive, end it with the same
  -- list, if the numbers that one has and receives are those that the other has and receives.
  pub participants_agree :
      (c c' : Client H T) (parameters : Parameters) (session session' : SessionState) (i i' : ℕ)
      (arrivals arrivals' : List (Arrival H T))
      (b b1 b' b1' : Bridge H T ParticipantProtocolDriver ℕ)
      → new_participant_bridge c parameters session i ≡ done b
      → new_participant_bridge c' parameters session' i' ≡ done b'
      → execute participant_driver b ≡ (done tt, b1)
      → execute participant_driver b' ≡ (done tt, b1')
      → 0 < parameters.threshold
      → All IsArrival arrivals
      → All IsArrival arrivals'
      → length arrivals ≡ parameters.threshold
      → length arrivals' ≡ parameters.threshold
      → Perm (i ∷ map share_number arrivals) (i' ∷ map share_number arrivals')
      → (wait_for_driver participant_driver (map (arrival_item session.session_id) arrivals) b).0
        ≡ (wait_for_driver participant_driver
            (map (arrival_item session'.session_id) arrivals')
            b').0
  participants_agree c c' parameters session session' i i' arrivals arrivals' b b1 b' b1' new new'
        started started' positive arrived arrived' count count' same =
      participants_exchanged c parameters session i arrivals b b1 new started positive arrived count
      ∙ ap (λ numbers. done (some numbers))
          (sort-eq (i ∷ map share_number arrivals) (i' ∷ map share_number arrivals') same)
      ∙ sym (
          participants_exchanged c' parameters session' i' arrivals' b' b1' new' started' positive
            arrived' count')
