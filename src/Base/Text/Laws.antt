-- ===== src/Base/Text/Laws.antt =====
-- strcmp as an equality of texts.
use libfaketime.Base.{ℕ, true, List, [], ◌∷◌, ◌≡◌, refl, arith}
use libfaketime.Base.Text.{same_text}

pub same_text_refl : (s : List ℕ) → same_text s s ≡ true
same_text_refl [] = refl
same_text_refl (c ∷ s) = ground (arith, same_text_refl s)

pub same_text_eq : (s t : List ℕ) → same_text s t ≡ true → s ≡ t
same_text_eq [] [] h = refl
same_text_eq [] (d ∷ t) h = cc
same_text_eq (c ∷ s) [] h = cc
same_text_eq (c ∷ s) (d ∷ t) h =
    let e : c ≡ d = ground arith in rw (e, same_text_eq s t (ground arith)) refl
