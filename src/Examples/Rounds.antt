-- ===== src/Examples/Rounds.antt =====
-- Two rounds of driver/src/round.rs whose messages arrive mixed.
use mpc_sdk_framework.Prelude.{
  ℕ, ◌≤◌, ◌≡◌, ◌↔◌, true, List, [], ◌∷◌, ◌++◌, length, arith, if◌then◌else◌, nat_beq,
}
use mpc_sdk_framework.Rounds.{RoundBuffer, new_fixed, is_ready, take_round}
use mpc_sdk_framework.Rounds.Arrivals.{add_all, of_round, take_round-add_all, is_ready_iff}

abbrev arrivals : List (ℕ × ℕ)
arrivals = (2, 20) ∷ (1, 10) ∷ (2, 21) ∷ (1, 11) ∷ []

abbrev buffer : RoundBuffer ℕ
buffer = new_fixed 2 2

take_round-add_all_example :
    ((take_round 1 (add_all arrivals buffer)).0 ≡ (take_round 1 buffer).0 ++ of_round 1 arrivals)
    × ((take_round 2 (take_round 1 (add_all arrivals buffer)).1).0
        ≡ (if nat_beq 1 2 then [] else (take_round 2 buffer).0 ++ of_round 2 arrivals))
take_round-add_all_example = take_round-add_all 1 2 arrivals buffer

is_ready_iff_example :
    (is_ready 2 (add_all arrivals (new_fixed 2 2)) ≡ true)
    ↔ ((1 ≤ 2) × (2 ≤ 2) × (length (of_round 2 arrivals) ≡ 2))
is_ready_iff_example = is_ready_iff 2 2 2 arrivals (omega arith)
