-- ===== src/Text/Split.antt =====
-- Splitting a text at a separator.
use tablex.Common.{
  [], Option, none, some, ℕ, Bool, true, false, not, ◌&&◌, List, ◌∷◌, ◌++◌, ◌≡◌, refl, ap, ◌∙◌, arith, Str, ◌==◌,
}
use tablex.Text.{add_first, split_on, cut_prefix}

-- No such byte in the text.
abbrev pub Free : ℕ → Str → Type 0
Free q [] = Unit {0}
Free q (c ∷ s) = (c == q ≡ false) × Free q s

abbrev pub no_byte : ℕ → Str → Bool
no_byte q [] = true
no_byte q (c ∷ s) = not (c == q) && no_byte q s

-- By the test, for a text that is written out.
pub Free-no_byte : (q : ℕ) (s : Str) → no_byte q s ≡ true → Free q s
Free-no_byte q [] h = tt
Free-no_byte q (c ∷ s) h = (ground arith, Free-no_byte q s (ground arith))

pub Free-append : (q : ℕ) (v w : Str) → Free q v → Free q w → Free q (v ++ w)
Free-append q [] w f g = g
Free-append q (c ∷ v) w (n, f) g = (n, Free-append q v w f g)

-- What ends a part: the end of the text, or the separator.
abbrev pub EndsPart : ℕ → Str → Type 0
EndsPart q [] = Unit {0}
EndsPart q (c ∷ s) = c ≡ q

pub split-front : (q : ℕ) (w s : Str) → Free q w → split_on q (w ++ (q ∷ s)) ≡ w ∷ split_on q s
unfolding split_on
split-front q [] s h = ground arith
split-front q (c ∷ w) s (n, h) = rw (n, split_on) (ap (add_first c) (split-front q w s h))

pub split-all : (q : ℕ) (w : Str) → Free q w → split_on q w ≡ w ∷ []
unfolding split_on
split-all q [] h = refl
split-all q (c ∷ w) (n, h) = rw (n, split_on) (ap (add_first c) (split-all q w h))

-- The first part of a text that goes on with what ends it.
pub split-first :
    (q : ℕ) (w s : Str) → Free q w → EndsPart q s → (ws : List Str) × (split_on q (w ++ s) ≡ w ∷ ws)
unfolding split_on
split-first q [] [] h e = ([], refl)
split-first q [] (c ∷ s) h e = (split_on q s, ground arith)
split-first q (c ∷ w) s (n, h) e =
    let (ws, f) = split-first q w s h e in (ws, rw (n, split_on) (ap (add_first c) f))

pub split-three :
    (q : ℕ) (a b c : Str)
    → Free q a
    → Free q b
    → Free q c
    → split_on q (a ++ (q ∷ (b ++ (q ∷ c)))) ≡ a ∷ b ∷ c ∷ []
split-three q a b c f g h =
    split-front q a (b ++ (q ∷ c)) f
    ∙ ap (◌∷◌ a) (split-front q b c g ∙ ap (◌∷◌ b) (split-all q c h))

-- A text that begins with the prefix.
pub cut_prefix-eq : (w s rest : Str) → cut_prefix w s ≡ some rest → s ≡ w ++ rest
unfolding cut_prefix
cut_prefix-eq [] s rest e = ground arith
cut_prefix-eq (a ∷ w) [] rest e = cc
cut_prefix-eq (a ∷ w) (c ∷ s) rest e = ground (arith, cut_prefix-eq w s rest)
