-- ===== src/Prelude/Text/Trim.antt =====
-- `String.prototype.trim` removes everything there is to remove.
use Prim.Native.Nat.{◌≤◌}
use mathlib.Core.Path.{◌≡◌, refl, sym, ap, ◌∙◌}
use mathlib.Core.List.{[], ◌∷◌, ◌++◌, reverse, reverse-reverse, reverse-append}
use native.Mathlib.Omega.{arith}
use cullen.Prelude.Tests.{if◌then◌else◌}
use cullen.Prelude.Lists.{length}
use cullen.Prelude.Text.{Text, is_space, trim_start, trim}

-- What is removed at the start, in one piece.
trim_start_split : (s : Text) → (r : Text) × (s ≡ r ++ trim_start s)
unfolding trim_start
trim_start_split [] = ([], refl)
trim_start_split (c ∷ s) =
    let (r, e) = trim_start_split s in (if is_space c then c ∷ r else [], ground (arith, e))

length-trim_start : (s : Text) → length (trim_start s) ≤ length s
unfolding trim_start
length-trim_start [] = omega arith
length-trim_start (c ∷ s) = ground (arith, length-trim_start s)

trim_start_idem : (s : Text) → trim_start (trim_start s) ≡ trim_start s
unfolding trim_start
trim_start_idem [] = refl
trim_start_idem (c ∷ s) = ground (arith, trim_start_idem s)

-- A start of a text that has no space to remove has none.
trim_start-prefix : (u v : Text) → trim_start (u ++ v) ≡ u ++ v → trim_start u ≡ u
unfolding trim_start
trim_start-prefix [] v h = refl
trim_start-prefix (c ∷ u) v h = ground (arith, ap length h, length-trim_start (u ++ v))

trim_end : Text → Text
trim_end s = reverse (trim_start (reverse s))

trim_end_idem : (s : Text) → trim_end (trim_end s) ≡ trim_end s
unfolding trim_end
trim_end_idem s =
    ap (λ r. reverse (trim_start r)) (reverse-reverse (trim_start (reverse s)))
    ∙ ap reverse (trim_start_idem (reverse s))

-- What is left after trimming the end still starts where it started.
trim_start-trim_end : (s : Text) → trim_start s ≡ s → trim_start (trim_end s) ≡ trim_end s
unfolding trim_end
trim_start-trim_end s h =
    let (r, e) = trim_start_split (reverse s) in
    let whole : s ≡ reverse (trim_start (reverse s)) ++ reverse r =
      sym (reverse-reverse s) ∙ ap reverse e ∙ reverse-append r (trim_start (reverse s)) in
    trim_start-prefix (reverse (trim_start (reverse s))) (reverse r)
      (ap trim_start (sym whole) ∙ h ∙ whole)

pub trim_idem : (s : Text) → trim (trim s) ≡ trim s
unfolding trim trim_end
trim_idem s =
    ap trim_end (trim_start-trim_end (trim_start s) (trim_start_idem s))
    ∙ trim_end_idem (trim_start s)
