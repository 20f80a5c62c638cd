-- ===== src/Domain/Aggregates/Knowledge/Conservation.antt =====
-- Every sample adds exactly one point to a region (packages/domain/src/aggregates.ts).
use loremaster.Prelude.{
  ℕ, ◌+◌, ◌*◌, ◌≤◌, ◌≡◌, refl, List, [], ◌∷◌, String, str_eq, ok, >>=-eq-ok, All, Bool-cases,
  Option-cases, Option, none, some, arith, inl, inr,
}
use loremaster.Domain.Attempt.{Snapshot}
use loremaster.Domain.Aggregates.{assert_terminal_attempt, round_half_up}
use loremaster.Domain.Aggregates.Rounding.{percentage_bound}
use loremaster.Domain.Aggregates.Knowledge.{
  FinalizedCaseOutcome, Tally, RegionalKnowledge, Regions, initial_regional_knowledge,
  regional_performance_hundredths, get, set, add_regions, contribute, or_initial, unique_ids,
  contribute_all, add_cases, display, calculate_regional_knowledge, assert_region_id,
}

-- Two points at the start, and one for each sample, shared out between the two sides.
pub record IsTally (t : Tally) : Type 0 where
  pub alpha_floor : 200 ≤ t.alpha_hundredths
  pub beta_floor : 200 ≤ t.beta_hundredths
  pub conserved : t.alpha_hundredths + t.beta_hundredths ≡ 400 + 100 * t.sample_count

abbrev Tallies : Regions → Type 0
Tallies = All (λ (e : String × Tally). IsTally e.1)

-- No performance passes the whole point.
pub performance_bound : (a : Snapshot) (p : ℕ) → regional_performance_hundredths a ≡ ok p → p ≤ 100
unfolding regional_performance_hundredths
performance_bound a p h = let (u, e, k) = >>=-eq-ok (assert_terminal_attempt a) _ h in ground arith

initial-IsTally : IsTally initial_regional_knowledge
initial-IsTally = omega arith

contribute-IsTally : (p : ℕ) (t : Tally) → p ≤ 100 → IsTally t → IsTally (contribute p t)
contribute-IsTally p t h v = ground arith

get-IsTally : (id : String) (m : Regions) (t : Tally) → Tallies m → get id m ≡ some t → IsTally t
unfolding get
get-IsTally id [] t h e = cc
get-IsTally id ((k, s) ∷ m) t h e = elim (Bool-cases (str_eq k id)) [
  | inl q ↦ let e' : s ≡ t = ground arith in rw (← e') h.0
  | inr q ↦ get-IsTally id m t h.1 (rw q at e)
]

or_initial-IsTally : (id : String) (m : Regions) → Tallies m → IsTally (or_initial (get id m))
or_initial-IsTally id m h = elim (Option-cases (get id m)) [
  | inl e ↦ rw e initial-IsTally
  | inr (t, e) ↦ rw e (get-IsTally id m t h e)
]

set-Tallies : (id : String) (t : Tally) (m : Regions) → IsTally t → Tallies m → Tallies (set id t m)
unfolding set
set-Tallies id t [] v h = (v, tt)
set-Tallies id t ((k, s) ∷ m) v h = elim (Bool-cases (str_eq k id)) [
  | inl e ↦ rw e (v, h.1)
  | inr e ↦ rw e (h.0, set-Tallies id t m v h.1)
]

add_regions-Tallies :
    (ids : List String) (m n : Regions) → Tallies m → add_regions ids m ≡ ok n → Tallies n
unfolding add_regions
add_regions-Tallies [] m n h e = let e' : m ≡ n = ground arith in rw (← e') h
add_regions-Tallies (id ∷ ids) m n h e =
    let (u, _, k) = >>=-eq-ok (assert_region_id id) _ e in
    add_regions-Tallies ids _ n (start (get id m) refl) k
  where
    start :
        (o : Option Tally)
        → get id m ≡ o
        → Tallies (elim (get id m) [ none ↦ set id initial_regional_knowledge m | some _ ↦ m ])
    start none q = rw q (set-Tallies id _ m initial-IsTally h)
    start (some t) q = rw q h

contribute_all-Tallies :
    (p : ℕ) (ids : List String) (m n : Regions)
    → p ≤ 100
    → Tallies m
    → contribute_all p ids m ≡ ok n
    → Tallies n
unfolding contribute_all
contribute_all-Tallies p [] m n b h e = let e' : m ≡ n = ground arith in rw (← e') h
contribute_all-Tallies p (id ∷ ids) m n b h e =
    let (u, _, k) = >>=-eq-ok (assert_region_id id) _ e in
    contribute_all-Tallies p ids _ n b
      (set-Tallies id _ m (contribute-IsTally p _ b (or_initial-IsTally id m h)) h) k

add_cases-Tallies :
    (cases : List FinalizedCaseOutcome) (m n : Regions)
    → Tallies m
    → add_cases cases m ≡ ok n
    → Tallies n
unfolding add_cases
add_cases-Tallies [] m n h e = let e' : m ≡ n = ground arith in rw (← e') h
add_cases-Tallies (c ∷ cases) m n h e =
    let (u, _, k) = >>=-eq-ok (assert_terminal_attempt c.attempt) _ e in
    let (p, q, l) = >>=-eq-ok (regional_performance_hundredths c.attempt) _ k in
    let (m', r, s) = >>=-eq-ok (contribute_all p (unique_ids [] c.region_ids) m) _ l in
    add_cases-Tallies cases m' n
      (contribute_all-Tallies p (unique_ids [] c.region_ids) m m' (performance_bound c.attempt p q)
        h r)
      s

-- What the result says of a region.
pub record IsKnowledge (k : RegionalKnowledge) : Type 0 where
  pub tally : IsTally k.tally
  pub percentage : k.display_percentage ≤ 100

display-IsKnowledge :
    (m : Regions) (out : List RegionalKnowledge)
    → Tallies m
    → display m ≡ ok out
    → All IsKnowledge out
unfolding display
display-IsKnowledge [] out h e = let e' : [] ≡ out = ground arith in rw (← e') tt
display-IsKnowledge ((id, t) ∷ m) out h e =
    let (p, q, k) =
      >>=-eq-ok (round_half_up (t.alpha_hundredths * 100) (t.alpha_hundredths + t.beta_hundredths))
        _ e in
    let (others, r, l) = >>=-eq-ok (display m) _ k in
    let e' : record { region_id = id; tally = t; display_percentage = p } ∷ others ≡ out =
      ground arith in
    rw (← e') (
      record {
        tally = h.0;
        percentage =
            percentage_bound t.alpha_hundredths (t.alpha_hundredths + t.beta_hundredths) p
              (omega arith) q;
      },
      display-IsKnowledge m others h.1 r,
    )

-- In every region of the result the two sides hold at least two points each, together exactly four
-- and one more for each sample, and the percentage shown is at most 100.
pub regional_knowledge_conserved :
    (region_ids : List String) (cases : List FinalizedCaseOutcome) (out : List RegionalKnowledge)
    → calculate_regional_knowledge region_ids cases ≡ ok out
    → All IsKnowledge out
unfolding calculate_regional_knowledge
regional_knowledge_conserved region_ids cases out h =
    let (known, e, k) = >>=-eq-ok (add_regions region_ids []) _ h in
    let (regions, f, l) = >>=-eq-ok (add_cases cases known) _ k in
    display-IsKnowledge regions out
      (add_cases-Tallies cases known regions (add_regions-Tallies region_ids [] known tt e) f) l
