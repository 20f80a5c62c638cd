-- ===== src/Examples/Sessions.antt =====
-- Runs of packages/database/src/identity/session-repository.ts.
use loremaster.Prelude.{
  ℕ, ◌≡◌, refl, true, false, [], ◌∷◌, Option, none, str_eq, ◌==◌, if◌then◌else◌, err, ◌≤◌,
}
use loremaster.Prelude.Js.{Text, codes, same_text, compare_text}
use loremaster.Api.Cookies.{is_token}
use loremaster.Identity.{
  Tables, Draw, Trouble, IdentityError, collides, inserted, created, create_once, create_with,
  create_guest_session,
}
use loremaster.Identity.Creation.{IsUsable, create_guest_session-IsUsable}
use loremaster.Identity.Retries.{Succeeds, create_guest_session-Succeeds}

abbrev hash : Text → Text
hash s = s

abbrev secret : Text
secret = codes "abcdefghijklmnopqrstuvwxyzABCDEFGHIJKLMNOP-"

-- The first try draws the id of a guest that is there.
abbrev draw : ℕ → Draw
draw k = record {
  guest_id = if k == 2 then "g1" else "g2";
  session_id = "s2";
  authentication_token = secret;
  csrf_token = secret;
  pseudonym = "Guest-x";
}

abbrev at : ℕ → ℕ
at k = 100

abbrev calm : ℕ → Option Trouble
calm k = none

abbrev tables : Tables
tables = record {
  guests = record { id = "g1"; pseudonym = "Ranger" } ∷ [];
  sessions =
      record {
        id = "s1";
        guest_id = "g1";
        token_hash = codes "t";
        csrf_hash = codes "c";
        expires_at = 900;
      }
      ∷ [];
}

token : is_token secret ≡ true
unfolding is_token
token = refl

create_guest_session-IsUsable_example :
    IsUsable hash tables (created hash (draw 1) 100) (inserted hash (draw 1) 100 tables)
unfolding create_guest_session create_with create_once collides str_eq same_text compare_text
create_guest_session-IsUsable_example =
    create_guest_session-IsUsable hash draw at calm tables (inserted hash (draw 1) 100 tables)
      (created hash (draw 1) 100) (λ k. (token, token)) refl

create_guest_session-Succeeds_example :
    ((k : ℕ)
      → k ≤ 2
      → ((i : ℕ) → i ≤ 2 → calm i ≡ none)
      → collides hash (draw k) tables ≡ false
      → Succeeds hash draw at calm (create_guest_session hash draw at calm tables))
    × ((x : IdentityError) (s' : Tables)
        → create_guest_session hash draw at calm tables ≡ (err x, s')
        → s' ≡ tables)
create_guest_session-Succeeds_example = create_guest_session-Succeeds hash draw at calm tables
