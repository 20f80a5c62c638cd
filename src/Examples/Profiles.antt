-- ===== src/Examples/Profiles.antt =====
-- Runs of packages/database/src/gameplay/profile.ts.
use loremaster.Prelude.{ℕ, ◌≡◌, List, [], ◌∷◌, String, err}
use loremaster.Prelude.Js.{Text, codes}
use loremaster.Gameplay.{GameplayError}
use loremaster.Gameplay.Profiles.{read_profile}
use loremaster.Gameplay.Profiles.Reading.{Left, read_profile-Left}
use loremaster.Examples.Gameplay.{tables, now}

abbrev day_text : ℕ → Text
day_text n = codes "2026-11-26"

abbrev catalog : List String
catalog = "azeroth" ∷ []

read_profile-Left_example :
    Left tables (read_profile catalog day_text now 20783 "g" tables).1
    × ((e : GameplayError)
        → (read_profile catalog day_text now 20783 "g" tables).0 ≡ err e
        → (read_profile catalog day_text now 20783 "g" tables).1 ≡ tables)
read_profile-Left_example = read_profile-Left catalog day_text now 20783 "g" tables
