-- ===== src/Api/Sources/Forwarding.antt =====
-- Whose address sourceIpFor of apps/api/src/security/source-ip.ts returns.
use loremaster.Prelude.{
  throw_if-ok, ℕ, Bool, true, false, not, ◌||◌, ◌≡◌, ◌≢◌, ◌≤◌, ◌⊎◌, ◌↔◌, inl, inr, refl, sym, ap,
  ◌∙◌, List, [], ◌∷◌, ◌++◌, ◌==◌, ==_iff, Option, none, some, ok, >>=-eq-ok, throw_if, reversed,
  All, Bool-cases, ltb, length, arith,
}
use mathlib.Core.Path.{subst}
use loremaster.Prelude.Js.{Text, split, split-some}
use loremaster.Api.Sources.{
  request_forbidden, ForwardedHeader, absent, text, not_text, SourceRequest,
  maximum_forwarding_hops, or_empty, or_forbidden, addresses_of, walk_back, chain_source,
  forwarded_source, source_ip_for,
}

∷-eq-∷ : {a b : Text} {xs ys : List Text} → a ∷ xs ≡ b ∷ ys → (a ≡ b) × (xs ≡ ys)
∷-eq-∷ h = (ground (arith, h), ground (arith, h))

length-some : (items : List Text) → items ≢ [] → 1 ≤ length items
length-some [] h = absurd (h refl)
length-some (i ∷ items) h = omega arith

length-split : (header : Text) → 1 ≤ length (split b',' header)
length-split header = length-some (split b',' header) (split-some b',' header)

module _ (canonical_ip_address : Text → Option Text) (is_trusted : Text → Bool) where
  abbrev Trusted : Text → Type 0
  Trusted a = is_trusted a ≡ true

  -- `a` is the first of the hops that is not trusted, or the last one when all before it are.
  abbrev pub FirstStranger : List Text → Text → Type 0
  FirstStranger hops a =
      (near : List Text) × (far : List Text) × (hops ≡ near ++ a ∷ far)
      × All Trusted near
      × ((is_trusted a ≡ false) ⊎ (far ≡ []))

  -- What a chain of forwarded addresses must be for its source to be `a`.
  abbrev pub IsChain : Text → ℕ → Text → Text → Type 0
  IsChain peer count header a =
      Trusted peer
      × (count ≡ 1)
      × (length (split b',' header) ≤ maximum_forwarding_hops)
      × ((addresses : List Text) × (addresses_of canonical_ip_address is_trusted header
            ≡ some addresses)
          × FirstStranger (peer ∷ reversed addresses) a)

  abbrev pub IsSource : Text → ℕ → ForwardedHeader → Text → Type 0
  IsSource peer count absent a = a ≡ peer
  IsSource peer count not_text a = ⊥
  IsSource peer count (text header) a = IsChain peer count header a

  walk_back-FirstStranger :
      (current : Text) (rest : List Text)
      → FirstStranger (current ∷ rest) (walk_back canonical_ip_address is_trusted current rest)
  unfolding walk_back
  walk_back-FirstStranger current [] = ([], [], refl, tt, inr refl)
  walk_back-FirstStranger current (b ∷ rest) = elim (Bool-cases (is_trusted current)) [
    | inl e ↦
        let (near, far, s, v, w) = walk_back-FirstStranger b rest in
        rw e (current ∷ near, far, ap (λ x. current ∷ x) s, (e, v), w)
    | inr e ↦ rw e ([], b ∷ rest, refl, tt, inl e)
  ]

  FirstStranger-unique :
      (current : Text) (rest near far : List Text) (a : Text)
      → current ∷ rest ≡ near ++ a ∷ far
      → All Trusted near
      → (is_trusted a ≡ false) ⊎ (far ≡ [])
      → walk_back canonical_ip_address is_trusted current rest ≡ a
  unfolding walk_back
  FirstStranger-unique current [] [] far a s v w = ground (arith, s)
  FirstStranger-unique current (b ∷ rest) [] far a s v w = ground (arith, s, w)
  FirstStranger-unique current [] (n ∷ []) far a s v w = absurd (cc s)
  FirstStranger-unique current [] (n ∷ m ∷ near) far a s v w = absurd (cc s)
  FirstStranger-unique current (b ∷ rest) (n ∷ near) far a s v w =
      let e : is_trusted current ≡ true = ap is_trusted (∷-eq-∷ s).0 ∙ v.0 in
      rw e (FirstStranger-unique b rest near far a (∷-eq-∷ s).1 v.1 w)

  or_forbidden-ok : {A : Type 0} (o : Option A) {a : A} → or_forbidden o ≡ ok a → o ≡ some a
  unfolding or_forbidden
  or_forbidden-ok none h = absurd (cc h)
  or_forbidden-ok (some b) h = ground (arith, h)

  not-false : (b : Bool) → not b ≡ false → b ≡ true
  not-false true h = refl
  not-false false h = absurd (cc h)

  ||-false : (b c : Bool) → (b || c) ≡ false → (b ≡ false) × (c ≡ false)
  ||-false true c h = absurd (cc h)
  ||-false false c h = (refl, h)

  in_hops :
      (n : ℕ) → (ltb n 1 || ltb maximum_forwarding_hops n) ≡ false → n ≤ maximum_forwarding_hops
  in_hops n h = ground arith

  text-IsChain :
      (peer : Text) (count : ℕ) (header a : Text)
      → forwarded_source canonical_ip_address is_trusted peer count (text header) ≡ ok a
      → IsChain peer count header a
  unfolding forwarded_source chain_source
  text-IsChain peer count header a h =
      let (_, c, r) =
        >>=-eq-ok (throw_if (not (is_trusted peer) || not (count == 1)) request_forbidden) _ h in
      let (_, d, r') =
        >>=-eq-ok
          (throw_if
            (ltb (length (split b',' header)) 1
              || ltb maximum_forwarding_hops (length (split b',' header)))
            request_forbidden)
          _ r in
      let (xs, e, r'') =
        >>=-eq-ok (or_forbidden (addresses_of canonical_ip_address is_trusted header)) _ r' in
      let g = ||-false (not (is_trusted peer)) (not (count == 1)) (throw_if-ok _ _ c) in
      let found : walk_back canonical_ip_address is_trusted peer (reversed xs) ≡ a =
        ground (arith, r'') in
      (
        not-false (is_trusted peer) g.0,
        (==_iff count 1).0 (not-false (count == 1) g.1),
        in_hops (length (split b',' header)) (throw_if-ok _ _ d),
        (
          xs,
          or_forbidden-ok _ e,
          subst (FirstStranger (peer ∷ reversed xs)) found
              (walk_back-FirstStranger peer (reversed xs)),
        ),
      )

  forwarded_source-IsSource :
      (peer : Text) (count : ℕ) (forwarded : ForwardedHeader) (a : Text)
      → forwarded_source canonical_ip_address is_trusted peer count forwarded ≡ ok a
      → IsSource peer count forwarded a
  unfolding forwarded_source
  forwarded_source-IsSource peer count absent a h = ground (arith, h)
  forwarded_source-IsSource peer count not_text a h = absurd (cc h)
  forwarded_source-IsSource peer count (text header) a h = text-IsChain peer count header a h

  in_range :
      (n : ℕ)
      → 1 ≤ n
      → n ≤ maximum_forwarding_hops
      → (ltb n 1 || ltb maximum_forwarding_hops n) ≡ false
  in_range n l u = ground arith

  one : (n : ℕ) → n ≡ 1 → (n == 1) ≡ true
  one n h = ground arith

  IsChain-text :
      (peer : Text) (count : ℕ) (header a : Text)
      → IsChain peer count header a
      → forwarded_source canonical_ip_address is_trusted peer count (text header) ≡ ok a
  unfolding forwarded_source chain_source or_forbidden
  IsChain-text peer count header a (t, c, l, (xs, e, (near, far, s, v, w))) =
      rw
        (
          t,
          one count c,
          in_range (length (split b',' header)) (length-split header) l,
          e,
          FirstStranger-unique peer (reversed xs) near far a s v w,
        )
        refl

  IsSource-forwarded_source :
      (peer : Text) (count : ℕ) (forwarded : ForwardedHeader) (a : Text)
      → IsSource peer count forwarded a
      → forwarded_source canonical_ip_address is_trusted peer count forwarded ≡ ok a
  unfolding forwarded_source
  IsSource-forwarded_source peer count absent a h = ap ok (sym h)
  IsSource-forwarded_source peer count not_text a h = absurd h
  IsSource-forwarded_source peer count (text header) a h = IsChain-text peer count header a h

  -- `sourceIpFor` returns the address a exactly when the address of the peer has a canonical form
  -- and either no forwarding header was sent and a is the peer, or the peer is a trusted proxy, the
  -- header was sent once as a text of at most 32 addresses that all have a canonical form, and a is
  -- the first hop that is not trusted on the way from the server outwards, or the farthest hop when
  -- all of them are trusted.
  pub source_ip_for-iff_IsSource :
      (request : SourceRequest) (a : Text)
      → (source_ip_for canonical_ip_address is_trusted request ≡ ok a) ↔ (
          (peer : Text) × (canonical_ip_address (or_empty request.remote_address) ≡ some peer)
          × IsSource peer request.raw_header_count request.forwarded a)
  unfolding source_ip_for or_forbidden
  source_ip_for-iff_IsSource request a = (
    λ h.
        let (peer, e, r) =
          >>=-eq-ok (or_forbidden (canonical_ip_address (or_empty request.remote_address))) _ h in
        (
          peer,
          or_forbidden-ok _ e,
          forwarded_source-IsSource peer request.raw_header_count request.forwarded a r,
        ),
    λ (peer, e, v).
        rw e (IsSource-forwarded_source peer request.raw_header_count request.forwarded a v),
  )
