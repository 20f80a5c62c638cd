-- ===== src/Gameplay/Reconciliation.antt =====
-- packages/database/src/gameplay/reconciliation.ts: the end of an attempt.
pub mod Keeps
pub mod Untouched
use loremaster.Prelude.{
  ℕ, ◌+◌, ◌-◌, Bool, true, false, ◌&&◌, ◌||◌, not, List, [], ◌∷◌, map, Option, none, some, String,
  str_eq, any, find, Result, ok, err, ◌>>=◌, ltb, if◌then◌else◌,
}
use loremaster.Prelude.Int.{pos}
use loremaster.Prelude.Js.{int}
use loremaster.Domain.Attempt.{
  AttemptState, solved, Snapshot, TransitionResult, accepted, rejected, is_active,
}
use loremaster.Domain.Attempt.Engine.{expire}
use loremaster.Domain.Attempt.Score.{score_solved_attempt}
use loremaster.Domain.Aggregates.Knowledge.{regional_performance_hundredths}
use loremaster.Gameplay.{
  Store, Guest, RevisionRegion, StoredAttempt, AttemptRow, KnowledgeRow, GameplayError, domain,
  aggregate, no_first_row, lift,
}

is_solved : AttemptState → Bool
is_solved solved = true
is_solved _ = false

-- `terminal_at`, which only the `UPDATE` at the end of an attempt sets.
ended_at : Option ℕ → Option ℕ → Option ℕ
ended_at none old = old
ended_at (some at) old = some at

-- The columns that an `UPDATE` of an attempt sets, on the row of that id.
unfoldable pub set_play : String → Snapshot → ℕ → Option ℕ → StoredAttempt → StoredAttempt
unfolding ended_at
set_play id play at ended a =
    if str_eq a.id id
    then record a {
      play = play;
      version = a.version + 1;
      updated_at = at;
      terminal_at = ended_at ended a.terminal_at;
    }
    else a

-- The row that the `UPDATE` returns: the lock makes the stored columns those of `row`.
unfoldable pub updated_row : AttemptRow → Snapshot → ℕ → AttemptRow
updated_row row play at = record row { play = play; version = row.version + 1; snapshot_at = at }

score_of : Snapshot → ℕ → Result GameplayError ℕ
unfolding is_solved lift
score_of a elapsed =
    if is_solved a.state
    then (do b ← lift domain (score_solved_attempt a (int (pos elapsed))); ok b.score)
    else ok 0

has_key : String → String → KnowledgeRow → Bool
has_key guest_id region_id k = str_eq k.guest_id guest_id && str_eq k.region_id region_id

-- `INSERT ... ON CONFLICT (guest_id, region_id) DO UPDATE`
add_knowledge : String → String → ℕ → List KnowledgeRow → List KnowledgeRow
unfolding has_key
add_knowledge guest_id region_id performance [] =
    record {
      guest_id = guest_id;
      region_id = region_id;
      alpha = 200 + performance;
      beta = 200 + (100 - performance);
      sample_count = 1;
    }
    ∷ []
add_knowledge guest_id region_id performance (k ∷ ks) =
    let rest = add_knowledge guest_id region_id performance ks in
    if has_key guest_id region_id k
    then record k {
      alpha = k.alpha + performance;
      beta = k.beta + (100 - performance);
      sample_count = k.sample_count + 1;
    }
      ∷ ks
    else k ∷ rest

contributed : Store → String → String → Bool
contributed s attempt_id region_id =
    any (λ c. str_eq c.attempt_id attempt_id && str_eq c.region_id region_id) s.contributions

contribute : AttemptRow → AttemptState → ℕ → String → Store → Store
unfolding contributed add_knowledge
contribute row outcome performance region_id s =
    if contributed s row.id region_id then s else record s {
      contributions =
          record {
            attempt_id = row.id;
            region_id = region_id;
            guest_id = row.guest_id;
            outcome = outcome;
            alpha_delta = performance;
            beta_delta = 100 - performance;
          }
          ∷ s.contributions;
      knowledge = add_knowledge row.guest_id region_id performance s.knowledge;
    }

-- `WHERE revision_id = $2`
contribute_region : AttemptRow → AttemptState → ℕ → RevisionRegion → Store → Store
unfolding contribute
contribute_region row outcome performance r s =
    if str_eq r.revision_id row.revision_id
    then contribute row outcome performance r.region_id s
    else s

-- The regions of the revision, one after the other.
contribute_all : AttemptRow → AttemptState → ℕ → List RevisionRegion → Store → Store
unfolding contribute_region
contribute_all row outcome performance [] s = s
contribute_all row outcome performance (r ∷ rs) s =
    contribute_all row outcome performance rs (contribute_region row outcome performance r s)

-- `SELECT pseudonym ... rows[0]!`
pseudonym_of : Option Guest → Result GameplayError String
pseudonym_of none = err no_first_row
pseudonym_of (some g) = ok g.pseudonym

publish : AttemptRow → Snapshot → ℕ → ℕ → String → Store → Store
publish row a elapsed score pseudonym s =
    if any (λ l. str_eq l.attempt_id row.id) s.leaderboard then s else record s {
      leaderboard =
          record {
            attempt_id = row.id;
            guest_id = row.guest_id;
            slot_id = row.slot_id;
            pseudonym = pseudonym;
            evidence_level = a.evidence_level;
            total_wrong_guesses = a.total_wrong_guesses;
            elapsed_ms = elapsed;
            score = score;
          }
          ∷ s.leaderboard;
    }

publish_solved : AttemptRow → Snapshot → ℕ → ℕ → Store → Result GameplayError Store
unfolding is_solved publish pseudonym_of
publish_solved row a elapsed score s =
    if is_solved a.state
    then (do
      pseudonym ← pseudonym_of (find (λ g. str_eq g.id row.guest_id) s.guests)
      ok (publish row a elapsed score pseudonym s))
    else ok s

is_finalized : Store → String → Bool
is_finalized s id = any (λ f. str_eq f.attempt_id id) s.finalizations

add_finalization : AttemptRow → AttemptState → ℕ → ℕ → Store → Store
add_finalization row outcome score at s = record s {
  finalizations =
      record {
        attempt_id = row.id;
        guest_id = row.guest_id;
        slot_id = row.slot_id;
        outcome = outcome;
        score = score;
        finalized_at = at;
      }
      ∷ s.finalizations;
}

-- What the first finalization of an attempt brings.
credit : AttemptRow → Snapshot → ℕ → ℕ → ℕ → Store → Result GameplayError Store
unfolding publish_solved contribute_all add_finalization
credit row terminal elapsed score at s = do
  performance ← lift aggregate (regional_performance_hundredths terminal)
  publish_solved row terminal elapsed score (
      contribute_all row terminal.state performance s.regions
        (add_finalization row terminal.state score at s))

-- `ON CONFLICT (attempt_id) DO NOTHING`, and the return when there was one already
credit_once : AttemptRow → Snapshot → ℕ → ℕ → ℕ → Store → Result GameplayError Store
unfolding credit is_finalized
credit_once row terminal elapsed score at s =
    if is_finalized s row.id then ok s else credit row terminal elapsed score at s

-- `Math.max(0, at - started_at)` is the subtraction that stops at 0.
unfoldable pub finalize :
    AttemptRow → Snapshot → ℕ → Store → Result GameplayError (AttemptRow × Store)
unfolding score_of set_play updated_row credit_once
finalize row terminal at s = do
  score ← score_of terminal (at - row.started_at)
  s1 ←
      credit_once row terminal (at - row.started_at) score at
        (record s { attempts = map (set_play row.id terminal at (some at)) s.attempts })
  ok (updated_row row terminal at, s1)

-- The branches on the result of `expire`.
expire_result : AttemptRow → TransitionResult → Store → Result GameplayError (AttemptRow × Store)
expire_result row (accepted a p) s =
    if is_active a.state then ok (row, s) else finalize row a row.closes_at s
expire_result row (rejected reason a) s = ok (row, s)

close : AttemptRow → Store → Result GameplayError (AttemptRow × Store)
unfolding expire_result
close row s = do transition ← lift domain (expire row.play); expire_result row transition s

unfoldable pub expire_if_closed : AttemptRow → ℕ → Store → Result GameplayError (AttemptRow × Store)
unfolding close
expire_if_closed row sampled_at s =
    if not (is_active row.play.state) || ltb sampled_at row.closes_at
    then ok (row, s)
    else close row s
