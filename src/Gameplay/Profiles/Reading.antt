-- ===== src/Gameplay/Profiles/Reading.antt =====
-- What reading a profile by packages/database/src/gameplay/profile.ts leaves as it is.
use loremaster.Prelude.{
  ℕ, ◌≡◌, refl, sym, ◌∙◌, inl, inr, not, List, [], ◌∷◌, Option, none, some, String, ok, err,
  >>=-eq-ok, ok-pair, Bool-cases,
}
use mathlib.Core.Path.{subst}
use loremaster.Prelude.Js.{Text}
use loremaster.Domain.Aggregates.Profile.{calculate_profile_statistics}
use loremaster.Gameplay.{Store, AttemptRow, GameplayError, aggregate, Instants, lift}
use loremaster.Gameplay.Rows.{lock_guest, attempt_row}
use loremaster.Gameplay.Reconciliation.{expire_if_closed}
use loremaster.Gameplay.Reconciliation.Keeps.{Sound, books, expire_if_closed-Keeps}
use loremaster.Gameplay.Transactions.{transaction-cases}
use loremaster.Gameplay.Profiles.{
  ProfileProjection, playing_ids, expire_row, expire_all, finalized_plays, days_of, show_profile,
  profile_body, read_profile,
}

-- The tables of the commands are the same, and the attempts are sound if they were.
abbrev pub Left : Store → Store → Type 0
Left s s' = (books s' ≡ books s) × (Sound s → Sound s')

same-Left : (s s' : Store) → s ≡ s' → Left s s'
same-Left s s' e = subst (Left s) e (refl, (λ v. v))

row-Left :
    (o : Option AttemptRow) (t : ℕ) (s s' : Store) (u : Unit)
    → expire_row o t s ≡ ok (u, s')
    → Left s s'
unfolding expire_row
row-Left none t s s' u h = same-Left s s' (ok-pair h).1
row-Left (some row) t s s' u h =
    let ((current, s1), e, k) = >>=-eq-ok (expire_if_closed row t s) _ h in
    let kept = expire_if_closed-Keeps row t s s1 current e in
    subst (Left s) (ok-pair k).1 (kept.same_books, kept.still_sound)

all-Left :
    (guest_id : String) (now : Instants) (ids : List String) (s s' : Store) (u : Unit)
    → expire_all guest_id now ids s ≡ ok (u, s')
    → Left s s'
unfolding expire_all
all-Left guest_id now [] s s' u h = same-Left s s' (ok-pair h).1
all-Left guest_id now (id ∷ ids) s s' u h =
    let ((done, s1), e, k) =
      >>=-eq-ok (expire_row (attempt_row s id guest_id now.row_read) now.sampled s) _ h in
    let first = row-Left (attempt_row s id guest_id now.row_read) now.sampled s s1 done e in
    let rest = all-Left guest_id now ids s1 s' u k in (rest.0 ∙ first.0, (λ v. rest.1 (first.1 v)))

module _ (region_catalog : List String) (day_text : ℕ → Text) where
  shown-same :
      (guest_id : String) (today : ℕ) (s s' : Store) (p : Option ProfileProjection)
      → show_profile region_catalog day_text guest_id today s ≡ ok (p, s')
      → s ≡ s'
  unfolding show_profile
  shown-same guest_id today s s' p h =
      let (statistics, e, k) =
        >>=-eq-ok
          (lift aggregate (
            calculate_profile_statistics (finalized_plays s guest_id)
              (days_of region_catalog day_text s guest_id) (day_text today)))
          _ h in
      (ok-pair k).1

  body-Left :
      (now : Instants) (today : ℕ) (guest_id : String) (s s' : Store) (p : Option ProfileProjection)
      → profile_body region_catalog day_text now today guest_id s ≡ ok (p, s')
      → Left s s'
  unfolding profile_body
  body-Left now today guest_id s s' p h = elim (Bool-cases (not (lock_guest s guest_id))) [
    | inl e ↦ same-Left s s' (ok-pair (rw e at h)).1
    | inr e ↦
        let ((done, s1), a, k) =
          >>=-eq-ok (expire_all guest_id now (playing_ids guest_id s) s) _ (rw e at h) in
        subst (Left s) (shown-same guest_id today s1 s' p k)
          (all-Left guest_id now (playing_ids guest_id s) s s1 done a)
  ]

  -- Reading a profile, which expires the attempts of the guest whose cases have closed, changes no
  -- guess, receipt or participation day, and it leaves a table of attempts in which every snapshot is
  -- valid and a guest has at most one attempt in a slot, if it finds such a table. A read that throws
  -- changes no table.
  pub read_profile-Left :
      (now : Instants) (today : ℕ) (guest_id : String) (s : Store)
      → Left s (read_profile region_catalog day_text now today guest_id s).1
        × ((e : GameplayError)
            → (read_profile region_catalog day_text now today guest_id s).0 ≡ err e
            → (read_profile region_catalog day_text now today guest_id s).1 ≡ s)
  unfolding read_profile
  read_profile-Left now today guest_id s =
      elim (transaction-cases (profile_body region_catalog day_text now today guest_id) s _ _
        refl) [
          | inl (_, _, same) ↦ (same-Left s _ (sym same), (λ e h. same))
          | inr (p, r, w) ↦ (body-Left now today guest_id s _ p w, (λ e h. absurd (cc (sym r ∙ h))))
        ]
