-- ===== src/Ot/TextOrder.antt =====
-- The order `<=` of Go strings: bytes in lexicographic order.
use claude_ds_project.Base.{Bool, true, false, [], ◌∷◌, ◌≡◌, refl, ltb, ◌==◌, if◌then◌else◌, arith}
use claude_ds_project.Ot.Changeset.{Text}

unfoldable pub le_text : Text → Text → Bool
le_text [] t = true
le_text (_ ∷ _) [] = false
le_text (a ∷ s) (b ∷ t) = let rest = le_text s t in if a == b then rest else ltb a b

pub le_text_total : (s t : Text) → le_text s t ≡ false → le_text t s ≡ true
unfolding le_text
le_text_total [] t h = ground arith
le_text_total (_ ∷ _) [] h = refl
le_text_total (a ∷ s) (b ∷ t) h = ground (arith, le_text_total s t)

pub le_text_antisymm : (s t : Text) → le_text s t ≡ true → le_text t s ≡ true → s ≡ t
unfolding le_text
le_text_antisymm [] [] h k = refl
le_text_antisymm [] (_ ∷ _) h k = ground arith
le_text_antisymm (_ ∷ _) [] h k = ground arith
le_text_antisymm (a ∷ s) (b ∷ t) h k = ground (arith, le_text_antisymm s t)
