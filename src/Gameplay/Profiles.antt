-- ===== src/Gameplay/Profiles.antt =====
-- packages/database/src/gameplay/profile.ts: the profile of a guest. `region_catalog` is the table of
-- that name in the order of its ids, and `day_text` prints a date as PostgreSQL does.
pub mod Reading
use loremaster.Prelude.{
  ℕ, ◌+◌, ◌*◌, ◌/◌, Bool, true, false, ◌&&◌, not, List, [], ◌∷◌, map, Option, none, some, String,
  str_eq, Ordering, any, filter, find, Result, ok, err, ◌>>=◌, if◌then◌else◌,
}
use loremaster.Prelude.Js.{Text, codes, compare_text}
use loremaster.Prelude.Sorting.{sort_by}
use loremaster.Domain.Attempt.{Snapshot, is_active}
use loremaster.Domain.Aggregates.Profile.{ProfileStatistics, calculate_profile_statistics}
use loremaster.Gameplay.{
  Store, StoredAttempt, AttemptRow, KnowledgeRow, ParticipationDay, GameplayError, aggregate,
  Instants, transaction, lift,
}
use loremaster.Gameplay.Rows.{lock_guest, attempt_row}
use loremaster.Gameplay.Reconciliation.{expire_if_closed}

pub record ProfileRegion : Type 0 where
  pub region_id : String
  pub alpha_hundredths : ℕ
  pub beta_hundredths : ℕ
  pub sample_count : ℕ
  pub display_percentage : ℕ

pub record ProfileProjection : Type 0 where
  pub statistics : ProfileStatistics
  pub regional_knowledge : List ProfileRegion

-- `ORDER BY slot_id, id`
in_order : StoredAttempt → StoredAttempt → Bool
in_order a b = elim (compare_text (codes a.slot_id) (codes b.slot_id)) [
  | Ordering.lt ↦ true
  | Ordering.gt ↦ false
  | Ordering.eq ↦ elim (compare_text (codes a.id) (codes b.id)) [ Ordering.gt ↦ false | _ ↦ true ]
]

-- `WHERE guest_id=$1 AND state='ACTIVE'`
is_playing : String → StoredAttempt → Bool
is_playing guest_id a = str_eq a.guest_id guest_id && is_active a.play.state

playing_ids : String → Store → List String
unfolding in_order is_playing
playing_ids guest_id s =
    map (λ a. a.id) (sort_by in_order (filter (is_playing guest_id) s.attempts))

expire_row : Option AttemptRow → ℕ → Store → Result GameplayError (Unit {0} × Store)
expire_row none sampled s = ok (tt, s)
expire_row (some row) sampled s = do (current, s1) ← expire_if_closed row sampled s; ok (tt, s1)

-- The loop over the active attempts.
expire_all : String → Instants → List String → Store → Result GameplayError (Unit {0} × Store)
unfolding expire_row
expire_all guest_id now [] s = ok (tt, s)
expire_all guest_id now (id ∷ ids) s = do
  (done, s1) ← expire_row (attempt_row s id guest_id now.row_read) now.sampled s
  expire_all guest_id now ids s1

-- `JOIN loremaster.attempt_finalizations`
is_ended : Store → String → StoredAttempt → Bool
is_ended s guest_id a =
    str_eq a.guest_id guest_id && any (λ f. str_eq f.attempt_id a.id) s.finalizations

finalized_plays : Store → String → List Snapshot
unfolding is_ended in_order
finalized_plays s guest_id =
    map (λ a. a.play) (sort_by in_order (filter (is_ended s guest_id) s.attempts))

-- `Math.floor((100 * alpha + (alpha + beta) / 2) / (alpha + beta))`, over 2 * (alpha + beta)
shown_region : String → ℕ → ℕ → ℕ → ProfileRegion
shown_region id alpha beta samples = record {
  region_id = id;
  alpha_hundredths = alpha;
  beta_hundredths = beta;
  sample_count = samples;
  display_percentage = (2 * (alpha * 100) + (alpha + beta)) / (2 * (alpha + beta));
}

-- `LEFT JOIN loremaster.regional_knowledge`, with the defaults
region_of : String → Option KnowledgeRow → ProfileRegion
unfolding shown_region
region_of id none = shown_region id 200 200 0
region_of id (some k) = shown_region id k.alpha k.beta k.sample_count

regions_of : Store → String → List String → List ProfileRegion
unfolding region_of
regions_of s guest_id [] = []
regions_of s guest_id (id ∷ ids) =
    region_of id (find (λ k. str_eq k.region_id id && str_eq k.guest_id guest_id) s.knowledge)
    ∷ regions_of s guest_id ids

module _ (region_catalog : List String) (day_text : ℕ → Text) where
  days_of : Store → String → List Text
  days_of s guest_id =
      map (λ (d : ParticipationDay). day_text d.utc_day)
        (filter (λ d. str_eq d.guest_id guest_id) s.participation_days)

  -- `today` is the last reading of the clock, as a day.
  show_profile : String → ℕ → Store → Result GameplayError (Option ProfileProjection × Store)
  unfolding days_of finalized_plays regions_of
  show_profile guest_id today s = do
    statistics ← lift aggregate (
        calculate_profile_statistics (finalized_plays s guest_id) (days_of s guest_id)
          (day_text today))
    ok (
      some (record {
        statistics = statistics;
        regional_knowledge = regions_of s guest_id region_catalog;
      }),
      s,
    )

  profile_body :
      Instants → ℕ → String → Store → Result GameplayError (Option ProfileProjection × Store)
  unfolding playing_ids expire_all show_profile
  profile_body now today guest_id s = if not (lock_guest s guest_id) then ok (none, s) else (do
    (done, s1) ← expire_all guest_id now (playing_ids guest_id s) s
    show_profile guest_id today s1)

  unfoldable pub read_profile :
      Instants → ℕ → String → Store → Result GameplayError (Option ProfileProjection) × Store
  unfolding profile_body
  read_profile now today guest_id = transaction (profile_body now today guest_id)
