-- ===== src/Web/LatestRead.antt =====
-- apps/web/src/state/latest-read.ts: one read at a time, of which only the latest is accepted. A
-- read is known by its generation, which is also that of its abort controller. A load returns its
-- promise, as the asynchronous calls of the client do.
pub mod Ordering
use loremaster.Prelude.{
  ℕ, suc, Bool, true, false, ◌&&◌, not, List, [], ◌∷◌, Option, none, some, Mem, filter, any, ◌==◌,
  if◌then◌else◌,
}

-- The fields of the class, with what happens outside of it: the controllers that were aborted, the
-- loads that have not settled, those that have settled before their `finally`, and the generations
-- whose value was accepted, the last one first.
pub record Reads : Type 0 where
  pub generation : ℕ
  pub in_flight : Option ℕ
  pub aborted : List ℕ
  pub loading : List ℕ
  pub settled : List ℕ
  pub accepted : List ℕ

unfoldable pub new_read : Reads
new_read = record {
  generation = 0;
  in_flight = none;
  aborted = [];
  loading = [];
  settled = [];
  accepted = [];
}

-- `this.#inFlight?.abortController.abort()`
abort_in_flight : Option ℕ → List ℕ → List ℕ
abort_in_flight none aborted = aborted
abort_in_flight (some g) aborted = g ∷ aborted

unfoldable pub cancel : Reads → Reads
unfolding abort_in_flight
cancel s = record s {
  generation = suc s.generation;
  aborted = abort_in_flight s.in_flight s.aborted;
  in_flight = none;
}

-- A new load, after the abort of the read in flight, if there is one.
start : Reads → Reads
unfolding abort_in_flight
start s = record s {
  generation = suc s.generation;
  aborted = abort_in_flight s.in_flight s.aborted;
  loading = suc s.generation ∷ s.loading;
  in_flight = some (suc s.generation);
}

-- Without `replace` the promise of the read in flight is returned again.
run_unless : Bool → Option ℕ → Reads → Reads
unfolding start
run_unless false (some g) s = s
run_unless false none s = start s
run_unless true o s = start s

unfoldable pub run : Bool → Reads → Reads
unfolding run_unless
run replace s = run_unless replace s.in_flight s

remove : ℕ → List ℕ → List ℕ
remove g xs = filter (λ x. not (x == g)) xs

-- `generation === this.#generation && !abortController.signal.aborted`
unfoldable pub accepts : ℕ → Reads → Bool
accepts g s = g == s.generation && not (any (λ a. a == g) s.aborted)

-- The `then` of a load that gave a value.
unfoldable pub fulfil : ℕ → Reads → Reads
unfolding remove
fulfil g s = record s {
  loading = remove g s.loading;
  settled = g ∷ s.settled;
  accepted = if accepts g s then g ∷ s.accepted else s.accepted;
}

-- A load that failed or was aborted passes `then` by.
unfoldable pub reject : ℕ → Reads → Reads
unfolding remove
reject g s = record s { loading = remove g s.loading; settled = g ∷ s.settled }

clear : ℕ → Option ℕ → Option ℕ
clear g none = none
clear g (some f) = if f == g then none else some f

-- The `finally` of a load.
unfoldable pub finish : ℕ → Reads → Reads
unfolding clear remove
finish g s = record s { settled = remove g s.settled; in_flight = clear g s.in_flight }

-- Calls and loads in any order.
pub data Step : Reads → Reads → Type 0 where
  cancelled : (s : Reads) → Step s (cancel s)
  ran : (replace : Bool) (s : Reads) → Step s (run replace s)
  fulfilled : (g : ℕ) (s : Reads) → Mem g s.loading → Step s (fulfil g s)
  rejected : (g : ℕ) (s : Reads) → Mem g s.loading → Step s (reject g s)
  finished : (g : ℕ) (s : Reads) → Mem g s.settled → Step s (finish g s)

pub data Reachable : Reads → Type 0 where
  created : Reachable new_read
  after : {s t : Reads} → Reachable s → Step s t → Reachable t
