-- ===== src/Web/LatestRead/Ordering.antt =====
-- Which reads of apps/web/src/state/latest-read.ts are accepted.
use loremaster.Prelude.{
  ℕ, suc, ◌≤◌, ◌<◌, ◌≡◌, ◌≢◌, inl, inr, refl, sym, ap, ◌∙◌, Bool, true, false, not, List, [], ◌∷◌,
  Option, none, some, Mem, All, All-Mem, any, ◌==◌, ==_iff, Bool-cases, some_inj, arith,
}
use loremaster.Prelude.Sorting.{Pairwise}
use loremaster.Web.LatestRead.{
  Reads, new_read, abort_in_flight, cancel, start, run_unless, run, remove, accepts, fulfil, reject,
  clear, finish, Step, cancelled, ran, fulfilled, rejected, finished, Reachable, created, after,
}

abbrev UpTo : ℕ → ℕ → Type 0
UpTo n x = x ≤ n

-- Each accepted read is later than those accepted before it.
abbrev pub IsLater : ℕ → ℕ → Type 0
IsLater x y = y < x

record Ordered (s : Reads) : Type 0 where
  loading_known : All (UpTo s.generation) s.loading
  accepted_known : All (UpTo s.generation) s.accepted
  accepted_ordered : Pairwise IsLater s.accepted
  apart : All (λ x. All (λ y. x ≢ y) s.loading) s.accepted
  in_flight_latest : (g : ℕ) → s.in_flight ≡ some g → g ≡ s.generation
  aborted_past : All (λ x. x < s.generation) s.aborted

All-grows : (P Q : ℕ → Type 0) (xs : List ℕ) → ((x : ℕ) → P x → Q x) → All P xs → All Q xs
All-grows P Q [] f h = tt
All-grows P Q (x ∷ xs) f h = (f x h.0, All-grows P Q xs f h.1)

remove-All : (P : ℕ → Type 0) (g : ℕ) (xs : List ℕ) → All P xs → All P (remove g xs)
unfolding remove
remove-All P g [] h = tt
remove-All P g (x ∷ xs) h = elim (Bool-cases (x == g)) [
  | inl e ↦ rw e (remove-All P g xs h.1)
  | inr e ↦ rw e (h.0, remove-All P g xs h.1)
]

not_removed : (g : ℕ) (xs : List ℕ) → All (λ y. g ≢ y) (remove g xs)
unfolding remove
not_removed g [] = tt
not_removed g (x ∷ xs) = elim (Bool-cases (x == g)) [
  | inl e ↦ rw e (not_removed g xs)
  | inr e ↦ rw e ((λ q. absurd (cc (sym e ∙ (==_iff x g).1 (sym q)))), not_removed g xs)
]

past_abort :
    (o : Option ℕ) (n : ℕ) (aborted : List ℕ)
    → ((g : ℕ) → o ≡ some g → g ≡ n)
    → All (λ x. x < n) aborted
    → All (λ x. x < suc n) (abort_in_flight o aborted)
unfolding abort_in_flight
past_abort none n aborted f h =
    All-grows (λ x. x < n) (λ x. x < suc n) aborted (λ x l. omega (arith, l)) h
past_abort (some g) n aborted f h = (
  omega (arith, f g refl),
  All-grows (λ x. x < n) (λ x. x < suc n) aborted (λ x l. omega (arith, l)) h,
)

new-Ordered : Ordered new_read
unfolding new_read
new-Ordered = record {
  loading_known = tt;
  accepted_known = tt;
  accepted_ordered = tt;
  apart = tt;
  in_flight_latest = λ g h. absurd (cc h);
  aborted_past = tt;
}

grow : (n : ℕ) (xs : List ℕ) → All (UpTo n) xs → All (UpTo (suc n)) xs
grow n xs h = All-grows (UpTo n) (UpTo (suc n)) xs (λ x l. omega (arith, l)) h

cancel-Ordered : (s : Reads) → Ordered s → Ordered (cancel s)
unfolding cancel
cancel-Ordered s v = record {
  loading_known = grow s.generation s.loading v.loading_known;
  accepted_known = grow s.generation s.accepted v.accepted_known;
  accepted_ordered = v.accepted_ordered;
  apart = v.apart;
  in_flight_latest = λ g h. absurd (cc h);
  aborted_past = past_abort s.in_flight s.generation s.aborted v.in_flight_latest v.aborted_past;
}

apart_new :
    (n : ℕ) (loading xs : List ℕ)
    → All (UpTo n) xs
    → All (λ x. All (λ y. x ≢ y) loading) xs
    → All (λ x. All (λ y. x ≢ y) (suc n ∷ loading)) xs
apart_new n loading [] h k = tt
apart_new n loading (x ∷ xs) h k =
    (((λ q. omega (arith, q, h.0)), k.0), apart_new n loading xs h.1 k.1)

start-Ordered : (s : Reads) → Ordered s → Ordered (start s)
unfolding start
start-Ordered s v = record {
  loading_known = (omega arith, grow s.generation s.loading v.loading_known);
  accepted_known = grow s.generation s.accepted v.accepted_known;
  accepted_ordered = v.accepted_ordered;
  apart = apart_new s.generation s.loading s.accepted v.accepted_known v.apart;
  in_flight_latest = λ g h. sym (some_inj h);
  aborted_past = past_abort s.in_flight s.generation s.aborted v.in_flight_latest v.aborted_past;
}

run-Ordered :
    (replace : Bool) (o : Option ℕ) (s : Reads) → Ordered s → Ordered (run_unless replace o s)
unfolding run_unless
run-Ordered false (some g) s v = v
run-Ordered false none s v = start-Ordered s v
run-Ordered true o s v = start-Ordered s v

apart_less :
    (g : ℕ) (loading xs : List ℕ)
    → All (λ x. All (λ y. x ≢ y) loading) xs
    → All (λ x. All (λ y. x ≢ y) (remove g loading)) xs
apart_less g loading [] h = tt
apart_less g loading (x ∷ xs) h =
    (remove-All (λ y. x ≢ y) g loading h.0, apart_less g loading xs h.1)

reject-Ordered : (g : ℕ) (s : Reads) → Ordered s → Ordered (reject g s)
unfolding reject
reject-Ordered g s v = record {
  loading_known = remove-All (UpTo s.generation) g s.loading v.loading_known;
  accepted_known = v.accepted_known;
  accepted_ordered = v.accepted_ordered;
  apart = apart_less g s.loading s.accepted v.apart;
  in_flight_latest = v.in_flight_latest;
  aborted_past = v.aborted_past;
}

clear-latest :
    (g : ℕ) (o : Option ℕ) (n : ℕ)
    → ((f : ℕ) → o ≡ some f → f ≡ n)
    → (f : ℕ) → clear g o ≡ some f
    → f ≡ n
unfolding clear
clear-latest g none n h f k = absurd (cc k)
clear-latest g (some x) n h f k = elim (Bool-cases (x == g)) [
  | inl e ↦ let j : none ≡ some f = rw e at k in absurd (cc j)
  | inr e ↦ h f (rw e at k)
]

finish-Ordered : (g : ℕ) (s : Reads) → Ordered s → Ordered (finish g s)
unfolding finish
finish-Ordered g s v = record {
  loading_known = v.loading_known;
  accepted_known = v.accepted_known;
  accepted_ordered = v.accepted_ordered;
  apart = v.apart;
  in_flight_latest = clear-latest g s.in_flight s.generation v.in_flight_latest;
  aborted_past = v.aborted_past;
}

-- A read that is loading comes after every accepted one, if it is the last one.
latest_after :
    (g n : ℕ) (loading xs : List ℕ)
    → Mem g loading
    → g ≡ n
    → All (UpTo n) xs
    → All (λ x. All (λ y. x ≢ y) loading) xs
    → All (IsLater g) xs
latest_after g n loading [] m e h k = tt
latest_after g n loading (x ∷ xs) m e h k =
    let apart : x ≢ g = All-Mem (λ y. x ≢ y) g loading k.0 m in
    (omega (arith, e, h.0, apart), latest_after g n loading xs m e h.1 k.1)

accepts-latest : (g : ℕ) (s : Reads) → accepts g s ≡ true → g ≡ s.generation
unfolding accepts
accepts-latest g s h = ground arith

fulfil-Ordered : (g : ℕ) (s : Reads) → Mem g s.loading → Ordered s → Ordered (fulfil g s)
unfolding fulfil reject
fulfil-Ordered g s m v = elim (Bool-cases (accepts g s)) [
  | inr e ↦ rw e (reject-Ordered g s v)
  | inl e ↦
      let q = accepts-latest g s e in
      rw e (record {
        loading_known = remove-All (UpTo s.generation) g s.loading v.loading_known;
        accepted_known = (omega (arith, q), v.accepted_known);
        accepted_ordered = (
          latest_after g s.generation s.loading s.accepted m q v.accepted_known v.apart,
          v.accepted_ordered,
        );
        apart = (not_removed g s.loading, apart_less g s.loading s.accepted v.apart);
        in_flight_latest = v.in_flight_latest;
        aborted_past = v.aborted_past;
      })
]

step-Ordered : (s t : Reads) → Step s t → Ordered s → Ordered t
unfolding run
step-Ordered _ _ (cancelled s) v = cancel-Ordered s v
step-Ordered _ _ (ran replace s) v = run-Ordered replace s.in_flight s v
step-Ordered _ _ (fulfilled g s m) v = fulfil-Ordered g s m v
step-Ordered _ _ (rejected g s m) v = reject-Ordered g s v
step-Ordered _ _ (finished g s m) v = finish-Ordered g s v

reachable-Ordered : (s : Reads) → Reachable s → Ordered s
reachable-Ordered s created = new-Ordered
reachable-Ordered s (after r st) = step-Ordered _ s st (reachable-Ordered _ r)

not_aborted : (g : ℕ) (xs : List ℕ) → All (λ x. x < g) xs → any (λ a. a == g) xs ≡ false
not_aborted g [] h = refl
not_aborted g (x ∷ xs) h = ground (arith, h.0, not_aborted g xs h.1)

accepts_lem : (g : ℕ) (s : Reads) → Ordered s → accepts g s ≡ (g == s.generation)
unfolding accepts
accepts_lem g s v = elim (Bool-cases (g == s.generation)) [
  | inr e ↦ rw e refl
  | inl e ↦
      let q : g ≡ s.generation = (==_iff g s.generation).0 e in
      let n = not_aborted s.generation s.aborted v.aborted_past in
      rw e (ap not (ap (λ k. any (λ a. a == k) s.aborted) q ∙ n))
]

-- Whatever the order of the calls of `run` and `cancel` and of the ends of the loads: the reads whose
-- values were accepted were started one after the other, so no value is accepted after that of a
-- later read; a value that comes in is accepted exactly when neither a later read was started nor
-- the reads were cancelled since its own start; and the read in flight is the one started last.
pub Reachable-accepted :
    (s : Reads)
    → Reachable s
    → Pairwise IsLater s.accepted
      × ((g : ℕ) → accepts g s ≡ (g == s.generation))
      × ((g : ℕ) → s.in_flight ≡ some g → g ≡ s.generation)
Reachable-accepted s r =
    let v = reachable-Ordered s r in
    (v.accepted_ordered, (λ g. accepts_lem g s v), v.in_flight_latest)
