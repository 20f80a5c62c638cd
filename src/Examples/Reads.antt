-- ===== src/Examples/Reads.antt =====
-- Runs of apps/web/src/state/latest-read.ts.
use loremaster.Prelude.{ℕ, ◌≡◌, refl, true, false, [], ◌∷◌, some, inl, inr, ◌==◌}
use loremaster.Prelude.Sorting.{Pairwise}
use loremaster.Web.LatestRead.{
  Reads, new_read, run, accepts, fulfil, Reachable, created, after, ran, fulfilled,
}
use loremaster.Web.LatestRead.Ordering.{IsLater, Reachable-accepted}

-- A read is replaced by a second one while it loads.
abbrev both : Reads
both = run true (run false new_read)

-- The first one ends first, then the second one.
abbrev ended : Reads
ended = fulfil 2 (fulfil 1 both)

one_accepted : ended.accepted ≡ 2 ∷ []
unfolding new_read run fulfil accepts
one_accepted = refl

Reachable-ended : Reachable ended
unfolding new_read run fulfil
Reachable-ended =
    after
      (after (after (after created (ran false new_read)) (ran true (run false new_read)))
        (fulfilled 1 both (inr (inl refl))))
      (fulfilled 2 (fulfil 1 both) (inl refl))

Reachable-accepted_example :
    Pairwise IsLater ended.accepted
    × ((g : ℕ) → accepts g ended ≡ (g == ended.generation))
    × ((g : ℕ) → ended.in_flight ≡ some g → g ≡ ended.generation)
Reachable-accepted_example = Reachable-accepted ended Reachable-ended
