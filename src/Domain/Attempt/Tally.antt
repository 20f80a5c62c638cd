-- ===== src/Domain/Attempt/Tally.antt =====
-- What the number of wrong guesses on record says of the guesses that were made
-- (packages/domain/src/attempt-engine.ts).
use loremaster.Prelude.{ℕ, ◌+◌, ◌-◌, ◌*◌, ◌≡◌, ◌≢◌, ◌⊎◌, inl, Bool, true, false, arith}
use loremaster.Domain.Attempt.{Snapshot, active, exhausted, accepted}
use loremaster.Domain.Attempt.Validity.{IsValid}
use loremaster.Domain.Attempt.Engine.{guess_active, reveal_active}
use loremaster.Domain.Attempt.Laws.{
  Command, guess, reveal, surrender, elapse, play, accepted_active,
}
use loremaster.Domain.Attempt.Reach.{start, Plays, Plays.here, Plays.next}

abbrev wrong_in : Command → ℕ
wrong_in (guess false) = 1
wrong_in _ = 0

-- A reveal gives up the guesses that are left at the level.
abbrev given_up_by : Command → Snapshot → ℕ
given_up_by reveal b = 3 - b.wrong_guesses_at_level
given_up_by _ b = 0

-- How many wrong guesses a play made.
abbrev pub wrong_guesses_made : {a b : Snapshot} {n : ℕ} → Plays a n b → ℕ
wrong_guesses_made here = 0
wrong_guesses_made (next c r e) = wrong_guesses_made r + wrong_in c

-- How many guesses the reveals of a play gave up.
abbrev pub guesses_given_up : {a b : Snapshot} {n : ℕ} → Plays a n b → ℕ
guesses_given_up here = 0
guesses_given_up (next {b = b} c r e) = guesses_given_up r + given_up_by c b

-- The counters of a snapshot after so many wrong guesses and guesses given up.
abbrev pub Tallies : Snapshot → ℕ → ℕ → Type 0
Tallies b wrong unused =
    ((b.state ≢ exhausted)
      × (b.total_wrong_guesses ≡ wrong)
      × (b.evidence_level * 3 + b.wrong_guesses_at_level ≡ wrong + unused))
    ⊎ ((b.state ≡ exhausted) × (b.total_wrong_guesses ≡ 15) × (wrong + unused ≡ 15))

play-Tallies :
    (c : Command) (b : Snapshot) {d : Snapshot} {p : Bool} (wrong unused : ℕ)
    → IsValid b
    → b.state ≡ active
    → play c b ≡ accepted d p
    → Tallies b wrong unused
    → Tallies d (wrong + wrong_in c) (unused + given_up_by c b)
unfolding guess_active reveal_active
play-Tallies (guess true) b wrong unused v s e t = ground arith
play-Tallies (guess false) b wrong unused v s e t = ground arith
play-Tallies reveal b wrong unused v s e t = ground arith
play-Tallies surrender b wrong unused v s e t = ground arith
play-Tallies elapse b wrong unused v s e t = ground arith

-- The record of every play from a new attempt. Until the attempt is exhausted, the wrong guesses on
-- record are those that were made, and three for each level behind and those at the level are the
-- wrong guesses made and the guesses given up by a reveal. An exhausted attempt has fifteen on
-- record, which are the wrong guesses made together with those given up, so the record exceeds the
-- guesses made by what the reveals gave up.
pub recorded_wrong_guesses :
    {b : Snapshot} {n : ℕ} (r : Plays start n b)
    → Tallies b (wrong_guesses_made r) (guesses_given_up r)
recorded_wrong_guesses here = inl ((λ h. absurd (cc h)), omega arith, omega arith)
recorded_wrong_guesses (next {b = b} c r e) =
    let (v, act, q) = accepted_active c b e in
    play-Tallies c b (wrong_guesses_made r) (guesses_given_up r) v act q (recorded_wrong_guesses r)
