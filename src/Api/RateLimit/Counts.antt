-- ===== src/Api/RateLimit/Counts.antt =====
-- What counting one request changes in a store of apps/api/src/security/rate-limit.ts.
use loremaster.Prelude.{ℕ, ◌+◌, ◌≡◌, ◌≢◌, refl, ap, ◌∙◌, List, [], ◌∷◌, String, str_eq_iff, arith}
use loremaster.Api.RateLimit.{
  Counter, autocomplete, mutation, session, Entry, WindowStore, counted, bump, lookup, put,
  count_of, entry_or_empty, admit,
}
use loremaster.Api.RateLimit.Bounds.{lookup-put, counted-count_of}

-- How many requests of a kind an identity has made in the window.
abbrev pub used : Counter → String → WindowStore → ℕ
used c key store = count_of c (lookup key store.entries)

-- The store has one more request of the kind for the identity, and is otherwise the same.
pub record CountsOne (c : Counter) (key : String) (store store' : WindowStore) : Type 0 where
  pub more : used c key store' ≡ used c key store + 1
  pub same_key : (d : Counter) → d ≢ c → used d key store' ≡ used d key store
  pub others : (d : Counter) (k : String) → k ≢ key → used d k store' ≡ used d k store
  pub bucket_kept : store'.bucket ≡ store.bucket
  pub capacity_kept : store'.capacity ≡ store.capacity

counted-bump : (c : Counter) (e : Entry) → counted c (bump c e) ≡ counted c e + 1
counted-bump autocomplete e = refl
counted-bump mutation e = refl
counted-bump session e = refl

counted-bump_other : (c d : Counter) (e : Entry) → d ≢ c → counted d (bump c e) ≡ counted d e
counted-bump_other autocomplete autocomplete e n = absurd (n refl)
counted-bump_other autocomplete mutation e n = refl
counted-bump_other autocomplete session e n = refl
counted-bump_other mutation autocomplete e n = refl
counted-bump_other mutation mutation e n = absurd (n refl)
counted-bump_other mutation session e n = refl
counted-bump_other session autocomplete e n = refl
counted-bump_other session mutation e n = refl
counted-bump_other session session e n = absurd (n refl)

lookup-put_other :
    (key k : String) (e : Entry) (xs : List (String × Entry))
    → k ≢ key
    → lookup k (put key e xs) ≡ lookup k xs
lookup-put_other key k e [] n = ground (arith, str_eq_iff key k)
lookup-put_other key k e ((j, x) ∷ rest) n =
    ground (arith, lookup-put_other key k e rest n, str_eq_iff j key, str_eq_iff j k)

-- The kinds of the identity itself, from its entry.
used-admit :
    (c d : Counter) (key : String) (store : WindowStore)
    → used d key (admit c key store)
      ≡ counted d (bump c (entry_or_empty (lookup key store.entries)))
unfolding admit count_of
used-admit c d key store =
    rw (lookup-put key (bump c (entry_or_empty (lookup key store.entries))) store.entries) refl

pub admit-CountsOne :
    (c : Counter) (key : String) (store : WindowStore) → CountsOne c key store (admit c key store)
unfolding admit
admit-CountsOne c key store = record {
  more =
      used-admit c c key store
      ∙ counted-bump c (entry_or_empty (lookup key store.entries))
      ∙ ap (λ n. n + 1) (counted-count_of c (lookup key store.entries));
  same_key = λ d n.
      used-admit c d key store
      ∙ counted-bump_other c d (entry_or_empty (lookup key store.entries)) n
      ∙ counted-count_of d (lookup key store.entries);
  others = λ d k n.
      ap (count_of d) (
        lookup-put_other key k (bump c (entry_or_empty (lookup key store.entries))) store.entries
          n);
  bucket_kept = refl;
  capacity_kept = refl;
}
