-- ===== src/Api/Sources.antt =====
-- apps/api/src/security/source-ip.ts: the address that a request is counted under. The parameters
-- are canonicalIpAddress, which rests on isIP and URL of the platform, and the check of the block list.
pub mod Forwarding
use loremaster.Prelude.{
  ℕ, Bool, not, ◌||◌, List, [], ◌∷◌, ◌==◌, Option, none, some, Result, ok, err, ◌>>=◌, ◌>>◌,
  throw_if, map, reversed, ltb, length, if◌then◌else◌,
}
use loremaster.Prelude.Js.{Text, split, trim}

-- `new PublicHttpError('REQUEST_FORBIDDEN')`
pub data SourceError : Type 0 where
  request_forbidden : SourceError

-- `request.headers['x-forwarded-for']`, which the check does not take for a text.
pub data ForwardedHeader : Type 0 where
  absent : ForwardedHeader
  text : Text → ForwardedHeader
  not_text : ForwardedHeader

-- What is read of a request: the address of the peer, the header, and how often it was sent.
pub record SourceRequest : Type 0 where
  pub remote_address : Option Text
  pub forwarded : ForwardedHeader
  pub raw_header_count : ℕ

abbrev pub maximum_forwarding_hops : ℕ
maximum_forwarding_hops = 32

unfoldable pub or_empty : Option Text → Text
or_empty none = []
or_empty (some a) = a

put : Text → Option (List Text) → Option (List Text)
put a none = none
put a (some rest) = some (a ∷ rest)

-- The addresses, unless one of them is undefined.
all_known : List (Option Text) → Option (List Text)
unfolding put
all_known [] = some []
all_known (none ∷ items) = none
all_known (some a ∷ items) = put a (all_known items)

or_forbidden : {A : Type 0} → Option A → Result SourceError A
or_forbidden none = err request_forbidden
or_forbidden (some a) = ok a

module _ (canonical_ip_address : Text → Option Text) (is_trusted : Text → Bool) where
  -- The addresses of the header, from left to right.
  unfoldable pub addresses_of : Text → Option (List Text)
  unfolding all_known
  addresses_of header =
      all_known (map (λ item. canonical_ip_address (trim item)) (split b',' header))

  -- The loop, over the addresses from right to left.
  unfoldable pub walk_back : Text → List Text → Text
  walk_back current [] = current
  walk_back current (address ∷ rest) =
      let found = walk_back address rest in if is_trusted current then found else current

  -- The chain of a header that was sent once.
  chain_source : Text → Text → Result SourceError Text
  unfolding or_forbidden
  chain_source peer header = do
    throw_if
        (ltb (length (split b',' header)) 1
          || ltb maximum_forwarding_hops (length (split b',' header)))
        request_forbidden
    addresses ← or_forbidden (addresses_of header)
    ok (walk_back peer (reversed addresses))

  forwarded_source : Text → ℕ → ForwardedHeader → Result SourceError Text
  unfolding chain_source
  forwarded_source peer count absent = ok peer
  forwarded_source peer count not_text = err request_forbidden
  forwarded_source peer count (text header) = do
    throw_if (not (is_trusted peer) || not (count == 1)) request_forbidden
    chain_source peer header

  unfoldable pub source_ip_for : SourceRequest → Result SourceError Text
  unfolding forwarded_source or_empty or_forbidden
  source_ip_for request = do
    peer ← or_forbidden (canonical_ip_address (or_empty request.remote_address))
    forwarded_source peer request.raw_header_count request.forwarded
