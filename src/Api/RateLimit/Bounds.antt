-- ===== src/Api/RateLimit/Bounds.antt =====
-- The limits of apps/api/src/security/rate-limit.ts hold in every window.
use loremaster.Prelude.{
  ℕ, ◌+◌, ◌≤◌, ◌<◌, ◌≡◌, refl, sym, inl, inr, false, Bool-cases, Option-cases, List, [], ◌∷◌,
  Option, none, some, String, str_eq, str_eq_iff, length, All, if◌then◌else◌, arith,
}
use loremaster.Api.RateLimit.{
  Counter, autocomplete, mutation, session, Entry, WindowStore, empty_entry, counted, bump, lookup,
  put, count_of, is_missing, entry_or_empty, roll, same_bucket, exceeds, admit,
}

-- No counter of an entry is over its limit.
abbrev pub EntryWithin : (Counter → ℕ) → Entry → Type 0
EntryWithin limits e = (c : Counter) → counted c e ≤ limits c

-- A store holds at most its capacity of identities, each within the limits.
pub record Within (limits : Counter → ℕ) (store : WindowStore) : Type 0 where
  pub fits : length store.entries ≤ store.capacity
  pub counts : All (λ p. EntryWithin limits p.1) store.entries

lookup-Within :
    (limits : Counter → ℕ) (key : String) (xs : List (String × Entry)) {e : Entry}
    → All (λ p. EntryWithin limits p.1) xs
    → lookup key xs ≡ some e
    → EntryWithin limits e
lookup-Within limits key [] v h = absurd (cc h)
lookup-Within limits key ((k, x) ∷ rest) {e} v h = elim (Bool-cases (str_eq k key)) [
  | inl q ↦ let same : x ≡ e = ground arith in λ c. rw (sym same) (v.0 c)
  | inr q ↦ lookup-Within limits key rest v.1 (rw q at h)
]

put-Within :
    (limits : Counter → ℕ) (key : String) (e : Entry) (xs : List (String × Entry))
    → EntryWithin limits e
    → All (λ p. EntryWithin limits p.1) xs
    → All (λ p. EntryWithin limits p.1) (put key e xs)
put-Within limits key e [] w v = (w, tt)
put-Within limits key e ((k, x) ∷ rest) w v = elim (Bool-cases (str_eq k key)) [
  | inl q ↦ rw q (w, v.1)
  | inr q ↦ rw q (v.0, put-Within limits key e rest w v.1)
]

-- A new key takes one more place, a known one none.
length-put :
    (key : String) (e : Entry) (xs : List (String × Entry))
    → length (put key e xs) ≡ length xs + (if is_missing (lookup key xs) then 1 else 0)
unfolding is_missing
length-put key e [] = refl
length-put key e ((k, x) ∷ rest) = ground (arith, length-put key e rest)

-- An entry that was put is found.
pub lookup-put :
    (key : String) (e : Entry) (xs : List (String × Entry)) → lookup key (put key e xs) ≡ some e
lookup-put key e [] = rw ((str_eq_iff key key).1 refl) refl
lookup-put key e ((k, x) ∷ rest) = elim (Bool-cases (str_eq k key)) [
  | inl q ↦ rw (q, q) refl
  | inr q ↦ rw (q, q) (lookup-put key e rest)
]

bump-Within :
    (limits : Counter → ℕ) (c : Counter) (e : Entry)
    → EntryWithin limits e
    → counted c e < limits c
    → EntryWithin limits (bump c e)
bump-Within limits autocomplete e w h autocomplete = ground arith
bump-Within limits autocomplete e w h mutation = w mutation
bump-Within limits autocomplete e w h session = w session
bump-Within limits mutation e w h autocomplete = w autocomplete
bump-Within limits mutation e w h mutation = ground arith
bump-Within limits mutation e w h session = w session
bump-Within limits session e w h autocomplete = w autocomplete
bump-Within limits session e w h mutation = w mutation
bump-Within limits session e w h session = ground arith

empty-Within : (limits : Counter → ℕ) → EntryWithin limits empty_entry
empty-Within limits autocomplete = omega arith
empty-Within limits mutation = omega arith
empty-Within limits session = omega arith

-- The entry that is counted: the one found, or an empty one.
current-Within :
    (limits : Counter → ℕ) (key : String) (store : WindowStore)
    → Within limits store
    → EntryWithin limits (entry_or_empty (lookup key store.entries))
unfolding entry_or_empty
current-Within limits key store w = elim (Option-cases (lookup key store.entries)) [
  | inl e ↦ λ c. rw e (empty-Within limits c)
  | inr (x, e) ↦ λ c. rw e (lookup-Within limits key store.entries w.counts e c)
]

pub counted-count_of :
    (c : Counter) (o : Option Entry) → counted c (entry_or_empty o) ≡ count_of c o
unfolding entry_or_empty count_of
counted-count_of autocomplete none = refl
counted-count_of mutation none = refl
counted-count_of session none = refl
counted-count_of c (some e) = refl

pub below_limit :
    (c : Counter) (key : String) (limit : ℕ) (store : WindowStore)
    → exceeds c key limit store ≡ false
    → count_of c (lookup key store.entries) < limit
unfolding exceeds
below_limit c key limit store h = ground arith

room_left :
    (c : Counter) (key : String) (limit : ℕ) (store : WindowStore)
    → exceeds c key limit store ≡ false
    → length store.entries ≤ store.capacity
    → length store.entries + (if is_missing (lookup key store.entries) then 1 else 0)
      ≤ store.capacity
unfolding exceeds
room_left c key limit store h w = ground arith

pub admit-Within :
    (limits : Counter → ℕ) (c : Counter) (key : String) (store : WindowStore)
    → Within limits store
    → exceeds c key (limits c) store ≡ false
    → Within limits (admit c key store)
unfolding admit
admit-Within limits c key store w h =
    let e = entry_or_empty (lookup key store.entries) in
    let less : counted c e < limits c =
      rw (counted-count_of c (lookup key store.entries)) (below_limit c key (limits c) store h) in
    record {
      fits =
          rw (length-put key (bump c e) store.entries) (room_left c key (limits c) store h w.fits);
      counts =
          put-Within limits key (bump c e) store.entries
            (bump-Within limits c e (current-Within limits key store w) less) w.counts;
    }

pub roll-Within :
    (limits : Counter → ℕ) (b : ℕ) (store : WindowStore)
    → Within limits store
    → Within limits (roll b store)
unfolding roll
roll-Within limits b store w = elim (Bool-cases (same_bucket store.bucket b)) [
  | inl q ↦ rw q w
  | inr q ↦ rw q (record { fits = omega arith; counts = tt })
]
