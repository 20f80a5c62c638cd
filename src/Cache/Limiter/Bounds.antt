-- ===== src/Cache/Limiter/Bounds.antt =====
-- The bounds of the limiter of packages/cache/src/limiter/redis.ts.
use loremaster.Prelude.{
  ℕ, ◌+◌, min, max, ◌≤◌, ◌<◌, ◌≡◌, ◌⊎◌, inl, inr, refl, sym, ap, ◌∙◌, Bool, true, false, ◌||◌, not,
  List, [], ◌∷◌, Option, none, some, Result, ok, ok-pair, >>=-eq-ok, throw_if, All, Bool-cases,
  filter, find, length, ltb, leb, arith,
}
use mathlib.Core.Path.{subst}
use loremaster.Prelude.Js.{Text}
use loremaster.Cache.Limiter.{
  LimitCounter, LimitScope, ip, guest, Key, Count, Member, Redis, Time, SharedLimitRequest,
  SharedLimitDecision, allowed, denied, LimiterError, invalid_request, limit_of, same_scope,
  same_key, live, get, put, bump, bump_guest, guest_full, needed_for, forget, write, allocate,
  run_script, reset_of, milliseconds, decision_of, Call, answered, unsent, lost, answer, key_for,
  guest_key_for, valid_request, consume,
}

-- No key counts more than its limit.
abbrev pub IsCounted : Count → Type 0
IsCounted c = c.count ≤ limit_of c.key.counter c.key.scope

abbrev pub IsWithin : Redis → Type 0
IsWithin r = All IsCounted r.counts

put-All : (c : Count) (cs : List Count) → IsCounted c → All IsCounted cs → All IsCounted (put c cs)
unfolding put
put-All c [] h v = (h, tt)
put-All c (d ∷ ds) h v = elim (Bool-cases (same_key d.key c.key)) [
  | inl e ↦ rw e (h, v.1)
  | inr e ↦ rw e (v.0, put-All c ds h v.1)
]

bump-IsWithin :
    (k : Key) (now : ℕ) (r : Redis)
    → get k now r < limit_of k.counter k.scope
    → IsWithin r
    → IsWithin (bump k now r)
unfolding bump
bump-IsWithin k now r h v =
    put-All (record { key = k; count = get k now r + 1; expires_at = now + 61000 }) r.counts
      (omega (arith, h)) v

-- Two keys of different scopes are not the same.
scope_apart :
    (a b c : Key) → b.scope ≡ ip → c.scope ≡ guest → same_key a b ≡ true → same_key a c ≡ false
unfolding same_key same_scope
scope_apart a b c p q h = ground arith

keys_apart : (b c : Key) → b.scope ≡ ip → c.scope ≡ guest → same_key b c ≡ false
unfolding same_key same_scope
keys_apart b c p q = ground arith

find-put :
    (c : Count) (k : Key) (cs : List Count)
    → c.key.scope ≡ ip
    → k.scope ≡ guest
    → find (λ x. same_key x.key k) (put c cs) ≡ find (λ x. same_key x.key k) cs
unfolding put
find-put c k [] p q = rw (keys_apart c.key k p q) refl
find-put c k (d ∷ ds) p q = elim (Bool-cases (same_key d.key c.key)) [
  | inl e ↦ rw (e, keys_apart c.key k p q, scope_apart d.key c.key k p q e) refl
  | inr e ↦ elim (Bool-cases (same_key d.key k)) [
    | inl f ↦ rw (e, f) refl
    | inr f ↦ rw (e, f) (find-put c k ds p q)
  ]
]

get-bump :
    (i k : Key) (now : ℕ) (r : Redis)
    → i.scope ≡ ip
    → k.scope ≡ guest
    → get k now (bump i now r) ≡ get k now r
unfolding get bump live
get-bump i k now r p q =
    rw
      (find-put (record { key = i; count = get i now r + 1; expires_at = now + 61000 }) k r.counts p
        q)
      refl

not_full : (n m : ℕ) → leb n m ≡ false → m < n
not_full n m h = ground arith

||-false : (b c : Bool) → (b || c) ≡ false → (b ≡ false) × (c ≡ false)
||-false true c h = absurd (cc h)
||-false false c h = (refl, h)

-- The keys that the script is given are of their scopes, and counted by the limits of the counter.
abbrev IsFor : LimitCounter → LimitScope → Key → Type 0
IsFor counter scope k = (k.scope ≡ scope) × (k.counter ≡ counter)

abbrev GuestFor : LimitCounter → Option Key → Type 0
GuestFor counter none = Unit
GuestFor counter (some k) = IsFor counter guest k

-- The keys that a call counts are below their limits.
abbrev IsBelow : LimitCounter → ℕ → Redis → Key → Option Key → Type 0
IsBelow counter now r i g =
    (get i now r < limit_of counter ip) × (guest_full g counter now r ≡ false)

limit_of-same :
    (counter : LimitCounter) (scope : LimitScope) (k : Key)
    → IsFor counter scope k
    → limit_of k.counter k.scope ≡ limit_of counter scope
limit_of-same counter scope k p = ap (λ c. limit_of c k.scope) p.1 ∙ ap (limit_of counter) p.0

IsBelow-members :
    (counter : LimitCounter) (now : ℕ) (r : Redis) (i : Key) (g : Option Key) (ms : List Member)
    → IsBelow counter now r i g
    → IsBelow counter now (record r { capacity = ms }) i g
unfolding guest_full get
IsBelow-members counter now r i none ms b = b
IsBelow-members counter now r i (some k) ms b = b

bump_guest-IsWithin :
    (counter : LimitCounter) (i : Key) (g : Option Key) (now : ℕ) (r : Redis)
    → IsFor counter ip i
    → GuestFor counter g
    → guest_full g counter now r ≡ false
    → IsWithin (bump i now r)
    → IsWithin (bump_guest g now (bump i now r))
unfolding bump_guest guest_full
bump_guest-IsWithin counter i none now r p q f v = v
bump_guest-IsWithin counter i (some k) now r p q f v =
    bump-IsWithin k now (bump i now r)
      (rw (get-bump i k now r p.0 q.0, limit_of-same counter guest k q)
        (not_full (limit_of counter guest) (get k now r) f))
      v

write-IsWithin :
    (counter : LimitCounter) (i : Key) (g : Option Key) (now : ℕ) (r : Redis)
    → IsFor counter ip i
    → GuestFor counter g
    → IsBelow counter now r i g
    → IsWithin r
    → IsWithin (write i g now r)
unfolding write
write-IsWithin counter i g now r p q b v =
    bump_guest-IsWithin counter i g now r p q b.1
      (bump-IsWithin i now r (rw (limit_of-same counter ip i p) b.0) v)

-- What the script returns and leaves.
abbrev IsFair : LimitCounter → ℕ → ℕ → Redis → Key → Option Key → (ℕ × ℕ) × Redis → Type 0
IsFair counter now reset r i g x =
    (IsWithin r → IsWithin x.1)
    × (((x.0 ≡ (0, reset)) × (x.1.counts ≡ r.counts))
        ⊎ ((x.0 ≡ (1, 0)) × IsBelow counter now r i g))

allocate-IsFair :
    (counter : LimitCounter) (now reset needed : ℕ) (r : Redis) (i : Key) (g : Option Key)
    → IsFor counter ip i
    → GuestFor counter g
    → IsBelow counter now r i g
    → IsFair counter now reset r i g (allocate i g now reset needed (forget now r))
unfolding allocate forget
allocate-IsFair counter now reset needed r i g p q b =
    elim (Bool-cases (ltb 19998 (length (filter (λ m. ltb now m.score) r.capacity) + needed))) [
      | inl e ↦ rw e ((λ v. v), inl (refl, refl))
      | inr e ↦ rw e (
        (λ v.
            write-IsWithin counter i g now
              (record r { capacity = filter (λ m. ltb now m.score) r.capacity }) p q
              (IsBelow-members counter now r i g (filter (λ m. ltb now m.score) r.capacity) b) v),
        inr (refl, b),
      )
    ]

script-IsFair :
    (counter : LimitCounter) (now reset : ℕ) (r : Redis) (i : Key) (g : Option Key)
    → IsFor counter ip i
    → GuestFor counter g
    → IsFair counter now reset r i g (run_script i g counter now reset r)
unfolding run_script
script-IsFair counter now reset r i g p q =
    elim (Bool-cases (leb (limit_of counter ip) (get i now r) || guest_full g counter now r)) [
      | inl e ↦ rw e ((λ v. v), inl (refl, refl))
      | inr e ↦
          let b =
            ||-false (leb (limit_of counter ip) (get i now r)) (guest_full g counter now r) e in
          rw e (
            allocate-IsFair counter now reset (needed_for (some i) now r + needed_for g now r) r i g
              p q (not_full (limit_of counter ip) (get i now r) b.0, b.1))
    ]

reset_range : (t : Time) → (1 ≤ reset_of t) × (reset_of t ≤ 60)
unfolding reset_of
reset_range t = (ground arith, ground arith)

-- A decision and what it leaves.
abbrev pub IsDecided :
    Text → Time → SharedLimitRequest → Redis → SharedLimitDecision → Redis → Type 0
IsDecided version t q r d r' =
    ((w : ℕ) → d ≡ denied w → (w ≡ reset_of t) × (1 ≤ w) × (w ≤ 60) × (r'.counts ≡ r.counts))
    × (d ≡ allowed
        → get (key_for version t q.counter ip q.ip_digest) (milliseconds t) r
          < limit_of q.counter ip)

denied-inj : {a b : ℕ} → denied a ≡ denied b → a ≡ b
denied-inj h = cc

pair_eq : {A B : Type 0} {a b : A} {s u : B} → a ≡ b → s ≡ u → ◌≡◌ {A = A × B} (a, s) (b, u)
pair_eq h k = rw (h, k) refl

waited : (w : ℕ) → 1 ≤ w → w ≤ 60 → max 1 (min 60 w) ≡ w
waited w l u = omega (arith, l, u)

-- The decision on a fair reply of the script.
answer-IsDecided :
    (version : Text) (t : Time) (q : SharedLimitRequest) (call : Call) (r : Redis)
    (x : (ℕ × ℕ) × Redis) (g : Option Key)
    → IsFair q.counter
        (milliseconds t)
        (reset_of t)
        r
        (key_for version t q.counter ip q.ip_digest)
        g
        x
    → (IsWithin r → IsWithin (answer call x r).1)
      × IsDecided version t q r (answer call x r).0 (answer call x r).1
unfolding answer decision_of
answer-IsDecided version t q unsent r (reply, r') g (v, c) =
    ((λ w. w), ((λ w h. absurd (cc h)), (λ h. absurd (cc h))))
answer-IsDecided version t q lost r (reply, r') g (v, c) =
    (v, ((λ w h. absurd (cc h)), (λ h. absurd (cc h))))
answer-IsDecided version t q answered r (reply, r') g (v, inl (e, s)) = rw e (
  v,
  (
    (λ w h.
        let k : max 1 (min 60 (reset_of t)) ≡ w = denied-inj h in
        let range = reset_range t in
        let same : reset_of t ≡ w = sym (waited (reset_of t) range.0 range.1) ∙ k in
        (sym same, omega (arith, same, range.0), omega (arith, same, range.1), s)),
    (λ h. absurd (cc h)),
  ),
)
answer-IsDecided version t q answered r (reply, r') g (v, inr (e, b)) =
    rw e (v, ((λ w h. absurd (cc h)), (λ h. b.0)))

guest_key_for-GuestFor :
    (version : Text) (t : Time) (counter : LimitCounter) (o : Option Text)
    → GuestFor counter (guest_key_for version t counter o)
unfolding guest_key_for key_for
guest_key_for-GuestFor version t counter none = tt
guest_key_for-GuestFor version t counter (some d) = (refl, refl)

key_for-IsFor :
    (version : Text) (t : Time) (counter : LimitCounter) (d : Text)
    → IsFor counter ip (key_for version t counter ip d)
unfolding key_for
key_for-IsFor version t counter d = (refl, refl)

throw_if-ok :
    (b : Bool) {u : Unit}
    → ◌≡◌ {A = Result LimiterError Unit} (throw_if (not b) invalid_request) (ok u)
    → b ≡ true
throw_if-ok true h = refl
throw_if-ok false h = absurd (cc h)

-- A call of the limiter is only made for a valid request. It leaves no key with more than the limit of
-- its counter and scope, if it finds none, whether the call was answered, was never sent or lost its
-- answer. A denial counts nothing and tells to wait for the seconds that are left of the minute,
-- which are 1 to 60; and a call is only allowed when the address was below its limit.
pub consume-IsDecided :
    (version : Text) (call : Call) (t : Time) (q : SharedLimitRequest) (r r' : Redis)
    (d : SharedLimitDecision)
    → consume version call t q r ≡ ok (d, r')
    → (valid_request q ≡ true) × (IsWithin r → IsWithin r') × IsDecided version t q r d r'
unfolding consume
consume-IsDecided version call t q r r' d h =
    let (_, a, k) = >>=-eq-ok (throw_if (not (valid_request q)) invalid_request) _ h in
    let i = key_for version t q.counter ip q.ip_digest in
    let g = guest_key_for version t q.counter q.guest_digest in
    let fair =
      script-IsFair q.counter (milliseconds t) (reset_of t) r i g
        (key_for-IsFor version t q.counter q.ip_digest)
        (guest_key_for-GuestFor version t q.counter q.guest_digest) in
    let (w, s) =
      answer-IsDecided version t q call r (run_script i g q.counter (milliseconds t) (reset_of t) r)
        g fair in
    let e = ok-pair k in
    let p =
      subst (λ x. (IsWithin r → IsWithin x.1) × IsDecided version t q r x.0 x.1) (pair_eq e.0 e.1)
        (w, s) in
    (throw_if-ok (valid_request q) a, p.0, p.1)
