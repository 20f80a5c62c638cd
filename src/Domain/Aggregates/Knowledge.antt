-- ===== src/Domain/Aggregates/Knowledge.antt =====
-- `calculateRegionalKnowledge` of packages/domain/src/aggregates.ts. A `Map` is the list of its
-- entries in the order in which their keys were first set.
pub mod Conservation
use loremaster.Prelude.{
  ℕ, ◌+◌, ◌-◌, ◌*◌, Bool, true, false, Option, none, some, List, [], ◌∷◌, String, str_eq,
  if◌then◌else◌, any, Result, ok, ◌>>=◌, ◌>>◌, throw_if, ◌==◌,
}
use loremaster.Domain.Attempt.{Snapshot, AttemptState, solved}
use loremaster.Domain.Aggregates.{
  AggregateError, region_id_empty, assert_terminal_attempt, round_half_up,
}

pub record FinalizedCaseOutcome : Type 0 where
  pub attempt : Snapshot
  pub region_ids : List String

-- `MutableRegionalKnowledge`
pub record Tally : Type 0 where
  pub alpha_hundredths : ℕ
  pub beta_hundredths : ℕ
  pub sample_count : ℕ

pub record RegionalKnowledge : Type 0 where
  pub region_id : String
  pub tally : Tally
  pub open tally use *
  pub display_percentage : ℕ

abbrev pub Regions : Type 0
Regions = List (String × Tally)

abbrev pub initial_regional_knowledge : Tally
initial_regional_knowledge = record {
  alpha_hundredths = 200;
  beta_hundredths = 200;
  sample_count = 0;
}

-- `PERFORMANCE_BASE_HUNDREDTHS`
abbrev pub performance_base : ℕ → ℕ
performance_base e =
    if e == 0 then 100 else if e == 1 then 85 else if e == 2 then 65 else if e == 3 then 45 else 25

abbrev is_solved : AttemptState → Bool
is_solved solved = true
is_solved _ = false

-- `Math.max(0, base - 5 * wrong)`, as the subtraction that stops at 0
unfoldable pub regional_performance_hundredths : Snapshot → Result AggregateError ℕ
regional_performance_hundredths attempt = do
  assert_terminal_attempt attempt
  ok (
      if is_solved attempt.state
      then performance_base attempt.evidence_level - 5 * attempt.total_wrong_guesses
      else 0)

unfoldable pub get : String → Regions → Option Tally
get id [] = none
get id ((k, t) ∷ rest) = if str_eq k id then some t else get id rest

-- `map.set(id, tally)` keeps the place of a key that is there.
unfoldable pub set : String → Tally → Regions → Regions
set id tally [] = (id, tally) ∷ []
set id tally ((k, t) ∷ rest) =
    let others = (k, t) ∷ set id tally rest in if str_eq k id then (k, tally) ∷ rest else others

assert_region_id : String → Result AggregateError (Unit {0})
assert_region_id id = throw_if (str_eq id "") region_id_empty

-- The first loop: every known region starts at its initial value, once.
unfoldable pub add_regions : List String → Regions → Result AggregateError Regions
unfolding assert_region_id
add_regions [] regions = ok regions
add_regions (id ∷ ids) regions =
    assert_region_id id
    >> add_regions ids (elim (get id regions) [
      | none ↦ set id initial_regional_knowledge regions
      | some _ ↦ regions
    ])

-- `knowledge.alphaHundredths += p`, and so on
abbrev pub contribute : ℕ → Tally → Tally
contribute performance t = record {
  alpha_hundredths = t.alpha_hundredths + performance;
  beta_hundredths = t.beta_hundredths + (100 - performance);
  sample_count = t.sample_count + 1;
}

abbrev pub or_initial : Option Tally → Tally
or_initial none = initial_regional_knowledge
or_initial (some t) = t

-- `new Set(regionIds)`: a later copy of an id is dropped.
unfoldable pub unique_ids : List String → List String → List String
unique_ids seen [] = []
unique_ids seen (id ∷ ids) =
    let kept = id ∷ unique_ids (id ∷ seen) ids in
    let dropped = unique_ids seen ids in
    if any (λ other. str_eq other id) seen then dropped else kept

-- The inner loop over the regions of one case.
unfoldable pub contribute_all : ℕ → List String → Regions → Result AggregateError Regions
unfolding assert_region_id
contribute_all performance [] regions = ok regions
contribute_all performance (id ∷ ids) regions =
    assert_region_id id
    >> contribute_all performance ids
        (set id (contribute performance (or_initial (get id regions))) regions)

-- The second loop.
unfoldable pub add_cases : List FinalizedCaseOutcome → Regions → Result AggregateError Regions
add_cases [] regions = ok regions
add_cases (c ∷ cases) regions =
    assert_terminal_attempt c.attempt
    >> (regional_performance_hundredths c.attempt >>= λ performance.
        contribute_all performance (unique_ids [] c.region_ids) regions >>= add_cases cases)

unfoldable pub display : Regions → Result AggregateError (List RegionalKnowledge)
display [] = ok []
display ((id, t) ∷ rest) =
    round_half_up (t.alpha_hundredths * 100) (t.alpha_hundredths + t.beta_hundredths)
    >>= λ percentage. display rest >>= λ others.
        ok (record { region_id = id; tally = t; display_percentage = percentage } ∷ others)

unfoldable pub calculate_regional_knowledge :
    List String → List FinalizedCaseOutcome → Result AggregateError (List RegionalKnowledge)
calculate_regional_knowledge region_ids finalized_cases = do
  known ← add_regions region_ids []
  regions ← add_cases finalized_cases known
  display regions
