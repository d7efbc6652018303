-- ===== src/Base/Slices.antt =====
-- Lists cut at a position: `&buf[from..]` and `&buf[..to]`.
use Prim.Native.Nat.{ℕ, zero, suc, ◌+◌, ◌-◌, ◌≤◌, ◌<◌}
use mathlib.Core.Path.{◌≡◌, refl, sym, ap, ◌∙◌}
use mathlib.Core.List.{List, [], ◌∷◌, ◌++◌}
use mathlib.Core.Option.{none, some}
use native.Mathlib.Omega.{arith}
use seedstone.Base.Lists.{length, take, drop, get_elem?}

module _ {ℓ} {A : Type ℓ} where
  pub length-drop : (n : ℕ) (l : List A) → length (drop n l) ≡ length l - n
  length-drop zero l = omega arith
  length-drop (suc n) [] = omega arith
  length-drop (suc n) (x ∷ l) = omega (arith, length-drop n l)

  pub drop-drop : (m n : ℕ) (l : List A) → drop m (drop n l) ≡ drop (n + m) l
  drop-drop m zero l = let same : 0 + m ≡ m = omega arith in rw same refl
  drop-drop zero (suc n) [] = let same : suc n + 0 ≡ suc n = omega arith in rw same refl
  drop-drop (suc m) (suc n) [] =
      let same : suc n + suc m ≡ suc (n + suc m) = omega arith in rw same refl
  drop-drop m (suc n) (x ∷ l) =
      let same : suc n + m ≡ suc (n + m) = omega arith in rw same (drop-drop m n l)

  pub take-append : (a b : List A) → take (length a) (a ++ b) ≡ a
  take-append [] b = refl
  take-append (x ∷ a) b = ap (λ r. x ∷ r) (take-append a b)

  pub drop-append : (a b : List A) → drop (length a) (a ++ b) ≡ b
  drop-append [] b = refl
  drop-append (x ∷ a) b = drop-append a b

  pub drop_within : (n : ℕ) (a b : List A) → n ≤ length a → drop n (a ++ b) ≡ drop n a ++ b
  drop_within zero a b h = refl
  drop_within (suc n) [] b h = absurd (omega arith)
  drop_within (suc n) (x ∷ a) b h = drop_within n a b (omega arith)

  pub take_within : (n : ℕ) (a b : List A) → n ≤ length a → take n (a ++ b) ≡ take n a
  take_within zero a b h = refl
  take_within (suc n) [] b h = absurd (omega arith)
  take_within (suc n) (x ∷ a) b h = ap (λ r. x ∷ r) (take_within n a b (omega arith))

  pub get_elem?-drop :
      (n : ℕ) (l rest : List A) (x : A) → drop n l ≡ x ∷ rest → get_elem? l n ≡ some x
  get_elem?-drop zero [] rest x e = cc
  get_elem?-drop zero (y ∷ l) rest x e = cc
  get_elem?-drop (suc n) [] rest x e = cc
  get_elem?-drop (suc n) (y ∷ l) rest x e = get_elem?-drop n l rest x e

  pub get_elem?_within :
      (n : ℕ) (a b : List A) (x : A) → get_elem? a n ≡ some x → get_elem? (a ++ b) n ≡ some x
  get_elem?_within n [] b x e = cc
  get_elem?_within zero (y ∷ a) b x e = e
  get_elem?_within (suc n) (y ∷ a) b x e = get_elem?_within n a b x e

  -- The list from a position on is what `n` steps leave of what stands there.
  pub drop_on : (n : ℕ) (l a b : List A) → drop n l ≡ a ++ b → drop (n + length a) l ≡ b
  drop_on n l a b e = sym (drop-drop (length a) n l) ∙ ap (drop (length a)) e ∙ drop-append a b

  pub get_elem?-inside : (n : ℕ) (l : List A) (x : A) → get_elem? l n ≡ some x → n < length l
  get_elem?-inside n [] x e = cc
  get_elem?-inside zero (y ∷ l) x e = omega arith
  get_elem?-inside (suc n) (y ∷ l) x e = omega (arith, get_elem?-inside n l x e)

  pub get_elem?_beyond : (n : ℕ) (l : List A) → length l ≤ n → get_elem? l n ≡ none
  get_elem?_beyond n [] h = refl
  get_elem?_beyond zero (y ∷ l) h = absurd (omega arith)
  get_elem?_beyond (suc n) (y ∷ l) h = get_elem?_beyond n l (omega arith)
