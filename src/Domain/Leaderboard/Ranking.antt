-- ===== src/Domain/Leaderboard/Ranking.antt =====
-- What `rankLeaderboard` of packages/domain/src/leaderboard.ts returns.
use mathlib.Core.Path.{subst}
use mathlib.Core.List.{Perm, append_assoc}
use mathlib.Core.List.Perm
use loremaster.Prelude.{
  ℕ, suc, ◌+◌, Ordering, ◌≡◌, ◌≢◌, refl, ap, ◌∙◌, arith, Bool, true, false, Bool-cases, inl, inr,
  List, [], ◌∷◌, ◌++◌, map, Option, none, some, ok, All, count, length, length-append, >>=-eq-ok,
}
use loremaster.Domain.Leaderboard.{
  LeaderboardCandidate, RankedLeaderboardEntry, Entry, compare_performance,
  compare_pagination_order, is_gt, is_eq, insert, sort, rank_of, rank_all, rank_leaderboard,
  assert_unique_candidates,
}
use loremaster.Domain.Leaderboard.Order.{
  NotWorse, Before, Before-trans, Before-of_gt, NotWorse-of_Before, NotWorse-trans,
  performance_congr, performance_flip, better_trans,
}

-- The list is in pagination order.
abbrev pub IsOrdered : List LeaderboardCandidate → Type 0
IsOrdered [] = Unit
IsOrdered (x ∷ xs) = All (Before x) xs × IsOrdered xs

-- `c` performs strictly better than `x`.
abbrev pub is_better : LeaderboardCandidate → LeaderboardCandidate → Bool
is_better x c = elim (compare_performance c x) [ Ordering.lt ↦ true | _ ↦ false ]

insert-All :
    (P : LeaderboardCandidate → Type 0) (x : LeaderboardCandidate) (ys : List LeaderboardCandidate)
    → P x
    → All P ys
    → All P (insert x ys)
unfolding insert
insert-All P x [] px h = (px, tt)
insert-All P x (y ∷ ys) px h = elim (Bool-cases (is_gt (compare_pagination_order x y))) [
  | inl e ↦ rw e (h.0, insert-All P x ys px h.1)
  | inr e ↦ rw e (px, h)
]

All-Before :
    (x y : LeaderboardCandidate) (zs : List LeaderboardCandidate)
    → Before x y
    → All (Before y) zs
    → All (Before x) zs
All-Before x y [] p h = tt
All-Before x y (z ∷ zs) p h = (Before-trans x y z p h.0, All-Before x y zs p h.1)

not_gt : (x y : LeaderboardCandidate) → is_gt (compare_pagination_order x y) ≡ false → Before x y
not_gt x y h = ground arith

insert-IsOrdered :
    (x : LeaderboardCandidate) (ys : List LeaderboardCandidate)
    → IsOrdered ys
    → IsOrdered (insert x ys)
unfolding insert
insert-IsOrdered x [] h = (tt, tt)
insert-IsOrdered x (y ∷ ys) h = elim (Bool-cases (is_gt (compare_pagination_order x y))) [
  | inl e ↦
      rw e (
        insert-All (Before y) x ys (Before-of_gt x y (ground arith)) h.0,
        insert-IsOrdered x ys h.1,
      )
  | inr e ↦ rw e ((not_gt x y e, All-Before x y ys (not_gt x y e) h.0), h)
]

pub sort-IsOrdered : (xs : List LeaderboardCandidate) → IsOrdered (sort xs)
unfolding sort
sort-IsOrdered [] = tt
sort-IsOrdered (x ∷ xs) = insert-IsOrdered x (sort xs) (sort-IsOrdered xs)

insert-perm :
    (x : LeaderboardCandidate) (ys : List LeaderboardCandidate) → Perm (insert x ys) (x ∷ ys)
unfolding insert
insert-perm x [] = Perm.refl _
insert-perm x (y ∷ ys) = elim (Bool-cases (is_gt (compare_pagination_order x y))) [
  | inl e ↦ rw e (Perm.trans (Perm.cons y (insert-perm x ys)) (Perm.swap x y ys))
  | inr e ↦ rw e (Perm.refl _)
]

pub sort-perm : (xs : List LeaderboardCandidate) → Perm (sort xs) xs
unfolding sort
sort-perm [] = Perm.refl _
sort-perm (x ∷ xs) = Perm.trans (insert-perm x (sort xs)) (Perm.cons x (sort-perm xs))

count-insert :
    (p : LeaderboardCandidate → Bool) (x : LeaderboardCandidate) (ys : List LeaderboardCandidate)
    → count p (insert x ys) ≡ count p (x ∷ ys)
unfolding insert
count-insert p x [] = refl
count-insert p x (y ∷ ys) = ground (arith, count-insert p x ys)

pub count-sort :
    (p : LeaderboardCandidate → Bool) (xs : List LeaderboardCandidate)
    → count p (sort xs) ≡ count p xs
unfolding sort
count-sort p [] = refl
count-sort p (x ∷ xs) = omega (arith, count-insert p x (sort xs), count-sort p xs)

-- Nobody in an ordered list is better than its head.
none_better :
    (x : LeaderboardCandidate) (ys : List LeaderboardCandidate)
    → All (Before x) ys
    → count (is_better x) ys ≡ 0
none_better x [] h = refl
none_better x (y ∷ ys) h =
    ground (arith, none_better x ys h.1, performance_flip x y (NotWorse-of_Before x y h.0))

not_better_self : (x : LeaderboardCandidate) → is_better x x ≡ false
unfolding compare_performance
not_better_self x = ground arith

-- All of a list of candidates that do not perform worse than p are better than an x behind p.
better_everywhere :
    (p x : LeaderboardCandidate) (ys : List LeaderboardCandidate)
    → All (λ c. NotWorse c p) ys
    → NotWorse p x
    → compare_performance p x ≢ Ordering.eq
    → count (is_better x) ys ≡ length ys
better_everywhere p x [] h n e = refl
better_everywhere p x (y ∷ ys) h n e =
    ground (arith, better_everywhere p x ys h.1 n e, better_trans y p x h.0 n e)

count-congr :
    (p x : LeaderboardCandidate) (ys : List LeaderboardCandidate)
    → compare_performance p x ≡ Ordering.eq
    → count (is_better p) ys ≡ count (is_better x) ys
count-congr p x [] e = refl
count-congr p x (y ∷ ys) e = ground (arith, count-congr p x ys e, performance_congr y p x e)

count-append :
    (p : LeaderboardCandidate → Bool) (xs ys : List LeaderboardCandidate)
    → count p (xs ++ ys) ≡ count p xs + count p ys
count-append p [] ys = omega arith
count-append p (x ∷ xs) ys = omega (arith, count-append p xs ys)

All-append :
    (P : LeaderboardCandidate → Type 0) (xs ys : List LeaderboardCandidate)
    → All P xs
    → All P ys
    → All P (xs ++ ys)
All-append P [] ys hx hy = hy
All-append P (x ∷ xs) ys hx hy = (hx.0, All-append P xs ys hx.1 hy)

NotWorse-All :
    (p x : LeaderboardCandidate) (ys : List LeaderboardCandidate)
    → All (λ c. NotWorse c p) ys
    → NotWorse p x
    → All (λ c. NotWorse c x) ys
NotWorse-All p x [] h n = tt
NotWorse-All p x (y ∷ ys) h n = (NotWorse-trans y p x h.0 n, NotWorse-All p x ys h.1 n)

NotWorse-refl : (x : LeaderboardCandidate) → NotWorse x x
unfolding compare_performance
NotWorse-refl x = ground arith

-- The rank counts those before that are better.
rank_step :
    (p x : LeaderboardCandidate) (pr i : ℕ) (pre : List LeaderboardCandidate)
    → All (λ c. NotWorse c p) pre
    → length pre ≡ i
    → pr ≡ suc (count (is_better p) pre)
    → NotWorse p x
    → rank_of (some p) pr i x ≡ suc (count (is_better x) pre)
rank_step p x pr i pre a l q n = elim (Bool-cases (is_eq (compare_performance p x))) [
  | inl e ↦ rw e (omega (arith, count-congr p x pre (ground arith)))
  | inr e ↦ rw e (omega (arith, better_everywhere p x pre a n (ground arith)))
]

-- The rank of an entry is one more than how many of the candidates are strictly better.
abbrev pub IsRankAmong : List LeaderboardCandidate → RankedLeaderboardEntry → Type 0
IsRankAmong all r = r.rank ≡ suc (count (is_better r.candidate) all)

rank_among :
    (x : LeaderboardCandidate) (r : ℕ) (pre xs : List LeaderboardCandidate)
    → r ≡ suc (count (is_better x) pre)
    → All (Before x) xs
    → r ≡ suc (count (is_better x) (pre ++ x ∷ xs))
rank_among x r pre xs q h =
    ground (arith, count-append (is_better x) pre (x ∷ xs), not_better_self x, none_better x xs h)

rank_all_right :
    (p : LeaderboardCandidate) (pr i : ℕ) (pre rest : List LeaderboardCandidate)
    → All (λ c. NotWorse c p) pre
    → length pre ≡ i
    → pr ≡ suc (count (is_better p) pre)
    → IsOrdered (p ∷ rest)
    → All (IsRankAmong (pre ++ rest)) (rank_all (some p) pr i rest)
unfolding rank_all
rank_all_right p pr i pre [] a l q o = tt
rank_all_right p pr i pre (x ∷ xs) a l q o = (
  rank_among x r pre xs r_lem o.1.0,
  subst (λ ys. All (IsRankAmong ys) (rank_all (some x) r (i + 1) xs)) (append_assoc pre (x ∷ []) xs)
      (rank_all_right x r (i + 1) (pre ++ x ∷ []) xs
        (All-append _ pre (x ∷ []) (NotWorse-All p x pre a n) (NotWorse-refl x, tt))
        (omega (arith, length-append {0} pre (x ∷ [])))
        (ground (arith, r_lem, count-append (is_better x) pre (x ∷ []), not_better_self x)) o.1),
)
  where
    r : ℕ
    r = rank_of (some p) pr i x

    n : NotWorse p x
    n = NotWorse-of_Before p x o.0.0

    r_lem : r ≡ suc (count (is_better x) pre)
    r_lem = rank_step p x pr i pre a l q n

pub rank_all-right :
    (xs : List LeaderboardCandidate) → IsOrdered xs → All (IsRankAmong xs) (rank_all none 0 0 xs)
unfolding rank_all
rank_all-right [] h = tt
rank_all-right (x ∷ xs) h = (
  rank_among x 1 [] xs refl h.0,
  rank_all_right x 1 1 (x ∷ []) xs (NotWorse-refl x, tt) refl (ground (arith, not_better_self x)) h,
)

pub candidates-rank_all :
    (prev : Option LeaderboardCandidate) (pr i : ℕ) (xs : List LeaderboardCandidate)
    → map (λ (r : RankedLeaderboardEntry). r.candidate) (rank_all prev pr i xs) ≡ xs
unfolding rank_all
candidates-rank_all prev pr i [] = refl
candidates-rank_all prev pr i (x ∷ xs) =
    ap (◌∷◌ x) (candidates-rank_all (some x) (rank_of prev pr i x) (i + 1) xs)

pub All-same_counts :
    (xs ys : List LeaderboardCandidate) (rs : List RankedLeaderboardEntry)
    → ((p : LeaderboardCandidate → Bool) → count p xs ≡ count p ys)
    → All (IsRankAmong xs) rs
    → All (IsRankAmong ys) rs
All-same_counts xs ys [] e h = tt
All-same_counts xs ys (r ∷ rs) e h =
    (h.0 ∙ ap suc (e (is_better r.candidate)), All-same_counts xs ys rs e h.1)

-- The leaderboard lists the checked candidates, each once and in pagination order, and gives each
-- the competition rank: one more than the number of candidates that perform strictly better.
pub rank_leaderboard_lem :
    (entries : List Entry) (out : List RankedLeaderboardEntry)
    → rank_leaderboard entries ≡ ok out
    → (cs : List LeaderboardCandidate) × (assert_unique_candidates [] entries ≡ ok cs)
      × Perm (map (λ (r : RankedLeaderboardEntry). r.candidate) out) cs
      × IsOrdered (map (λ (r : RankedLeaderboardEntry). r.candidate) out)
      × All (IsRankAmong cs) out
unfolding rank_leaderboard
rank_leaderboard_lem entries out h =
    let (cs, e, k) = >>=-eq-ok _ _ h in
    let o : out ≡ rank_all none 0 0 (sort cs) = cc in
    (
      cs,
      e,
      rw (o, candidates-rank_all) (sort-perm cs),
      rw (o, candidates-rank_all) (sort-IsOrdered cs),
      rw o (
          All-same_counts (sort cs) cs _ (λ p. count-sort p cs)
            (rank_all-right (sort cs) (sort-IsOrdered cs))),
    )
