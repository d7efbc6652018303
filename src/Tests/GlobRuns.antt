-- ===== src/Tests/GlobRuns.antt =====
-- Runs of crates/seedstone-core/src/glob.rs, its own tests' patterns among them.
use seedstone.Base.{◌≡◌, ◌↔◌, refl, Bool, true, false, some, [], codes}
use seedstone.Glob.{matches}
use seedstone.Glob.Language.{Matches}
use seedstone.Glob.Ending.{matches_lem}

two_stars : matches (codes "a*b*c") (codes "axxbyc") ≡ some true
unfolding matches
two_stars = refl

retried_star : matches (codes "*aab") (codes "aaab") ≡ some true
unfolding matches
retried_star = refl

spent_pattern : matches (codes "a*b") (codes "acbc") ≡ some false
unfolding matches
spent_pattern = refl

star_on_nothing : matches (codes "**") [] ≡ some true
unfolding matches
star_on_nothing = refl

open_class : matches (codes "[a") (codes "a") ≡ some true
unfolding matches
open_class = refl

negated_range : matches (codes "h[^a-e]llo") (codes "hallo") ≡ some false
unfolding matches
negated_range = refl

empty_class : matches (codes "[]a]") (codes "a]") ≡ some false
unfolding matches
empty_class = refl

swapped_range : matches (codes "[a-]") (codes "_") ≡ some true
unfolding matches
swapped_range = refl

escaped_star : matches (codes "a\\*") (codes "ab") ≡ some false
unfolding matches
escaped_star = refl

matches_lem_example :
    (b : Bool) × (matches (codes "*aab") (codes "aaab") ≡ some b)
    × ((b ≡ true) ↔ Matches (codes "*aab") (codes "aaab"))
matches_lem_example = matches_lem (codes "*aab") (codes "aaab")
