-- ===== src/Memory/Gauge.antt =====
-- The gauge against the figures of the shards, in any order of their commands.
use seedstone.Base.{
  ℕ, zero, suc, ◌+◌, ◌%◌, ◌^◌, ◌<◌, ◌≡◌, refl, ap, ◌∙◌, arith, List, [], ◌∷◌, length, get_or, set,
}
use seedstone.Memory.{apply}

unfoldable pub sum : List ℕ → ℕ
sum [] = 0
sum (x ∷ rest) = x + sum rest

-- A command on shard `i` leaves it accounted at the second number, and its executor applies the
-- difference to the gauge.
abbrev pub Move : Type 0
Move = ℕ × ℕ

unfoldable pub shards_after : List Move → List ℕ → List ℕ
shards_after [] figures = figures
shards_after ((i, after) ∷ moves) figures = shards_after moves (set figures i after)

unfoldable pub gauge_after : List Move → List ℕ → ℕ → ℕ
gauge_after [] figures gauge = gauge
gauge_after ((i, after) ∷ moves) figures gauge =
    gauge_after moves (set figures i after) (apply gauge (get_or figures i 0) after)

abbrev pub AreMoves : List Move → List ℕ → Type 0
AreMoves [] figures = Unit {0}
AreMoves ((i, after) ∷ moves) figures =
    (i < length figures) × (get_or figures i 0 < 2 ^ 64) × AreMoves moves (set figures i after)

sum-set :
    (figures : List ℕ) (i after : ℕ)
    → i < length figures
    → sum (set figures i after) + get_or figures i 0 ≡ sum figures + after
unfolding sum
sum-set [] i after h = absurd (omega arith)
sum-set (x ∷ rest) zero after h = omega arith
sum-set (x ∷ rest) (suc i) after h = omega (arith, sum-set rest i after (omega arith))

-- One application follows the sum, if that falls as the figure does.
apply_lem :
    (total total' before after : ℕ)
    → total' + before ≡ total + after
    → before < 2 ^ 64
    → apply (total % 2 ^ 64) before after ≡ total' % 2 ^ 64
unfolding apply
apply_lem total total' before after e h = ground arith

-- After commands on shards that exist, in any order, each from a 64-bit figure, the gauge is the
-- sum of the shards' figures modulo 2^64, if it was that before them.
pub gauge_after_lem :
    (moves : List Move) (figures : List ℕ)
    → AreMoves moves figures
    → gauge_after moves figures (sum figures % 2 ^ 64) ≡ sum (shards_after moves figures) % 2 ^ 64
unfolding gauge_after shards_after
gauge_after_lem [] figures h = refl
gauge_after_lem ((i, after) ∷ moves) figures (within, word, rest) =
    ap (gauge_after moves (set figures i after)) (
      apply_lem (sum figures) (sum (set figures i after)) (get_or figures i 0) after
        (sum-set figures i after within) word)
    ∙ gauge_after_lem moves (set figures i after) rest
