-- ===== src/Ggm/Prefixes.antt =====
-- How the order of bit strings, their prefixes and `Before` go together.
use Prim.Native.Nat.{Ordering}
use secure_deletion.Common.{◌≡◌, ◌≢◌, refl, Bool, true, false, List, [], ◌∷◌}
use secure_deletion.Ggm.Order.{lex, IsPrefix, Before}

pub lex-prefix : (l p : List Bool) → IsPrefix l p → lex l p ≢ Ordering.lt
lex-prefix [] [] h e = cc
lex-prefix (x ∷ l) [] h e = cc
lex-prefix [] (y ∷ p) h e = absurd h
lex-prefix (true ∷ l) (true ∷ p) h e = lex-prefix l p h e
lex-prefix (true ∷ l) (false ∷ p) h e = absurd h
lex-prefix (false ∷ l) (true ∷ p) h e = absurd h
lex-prefix (false ∷ l) (false ∷ p) h e = lex-prefix l p h e

pub Before-lex : (a b : List Bool) → Before a b → lex a b ≡ Ordering.lt
Before-lex [] b h = absurd h
Before-lex (x ∷ a) [] h = absurd h
Before-lex (true ∷ a) (true ∷ b) h = Before-lex a b h
Before-lex (true ∷ a) (false ∷ b) h = absurd h
Before-lex (false ∷ a) (true ∷ b) h = refl
Before-lex (false ∷ a) (false ∷ b) h = Before-lex a b h

pub Before-lex_gt : (a b : List Bool) → Before a b → lex b a ≡ Ordering.gt
Before-lex_gt [] b h = absurd h
Before-lex_gt (x ∷ a) [] h = absurd h
Before-lex_gt (true ∷ a) (true ∷ b) h = Before-lex_gt a b h
Before-lex_gt (true ∷ a) (false ∷ b) h = absurd h
Before-lex_gt (false ∷ a) (true ∷ b) h = refl
Before-lex_gt (false ∷ a) (false ∷ b) h = Before-lex_gt a b h

-- What begins with the first of two strings stands before the second ...
pub Before-prefix_left : (a b l : List Bool) → Before a b → IsPrefix l a → Before l b
Before-prefix_left [] b l h k = absurd h
Before-prefix_left (x ∷ a) [] l h k = absurd h
Before-prefix_left (x ∷ a) (y ∷ b) [] h k = absurd k
Before-prefix_left (true ∷ a) (true ∷ b) (true ∷ l) h k = Before-prefix_left a b l h k
Before-prefix_left (true ∷ a) (true ∷ b) (false ∷ l) h k = absurd k
Before-prefix_left (true ∷ a) (false ∷ b) (true ∷ l) h k = absurd h
Before-prefix_left (true ∷ a) (false ∷ b) (false ∷ l) h k = absurd k
Before-prefix_left (false ∷ a) (true ∷ b) (true ∷ l) h k = absurd k
Before-prefix_left (false ∷ a) (true ∷ b) (false ∷ l) h k = tt
Before-prefix_left (false ∷ a) (false ∷ b) (true ∷ l) h k = absurd k
Before-prefix_left (false ∷ a) (false ∷ b) (false ∷ l) h k = Before-prefix_left a b l h k

-- ... and what begins with the second stands after the first.
pub Before-prefix_right : (a b l : List Bool) → Before a b → IsPrefix l b → Before a l
Before-prefix_right [] b l h k = absurd h
Before-prefix_right (x ∷ a) [] l h k = absurd h
Before-prefix_right (x ∷ a) (y ∷ b) [] h k = absurd k
Before-prefix_right (true ∷ a) (true ∷ b) (true ∷ l) h k = Before-prefix_right a b l h k
Before-prefix_right (true ∷ a) (true ∷ b) (false ∷ l) h k = absurd k
Before-prefix_right (true ∷ a) (false ∷ b) (true ∷ l) h k = absurd k
Before-prefix_right (true ∷ a) (false ∷ b) (false ∷ l) h k = absurd h
Before-prefix_right (false ∷ a) (true ∷ b) (true ∷ l) h k = tt
Before-prefix_right (false ∷ a) (true ∷ b) (false ∷ l) h k = absurd k
Before-prefix_right (false ∷ a) (false ∷ b) (true ∷ l) h k = absurd k
Before-prefix_right (false ∷ a) (false ∷ b) (false ∷ l) h k = Before-prefix_right a b l h k

pub Before-trans : (a b c : List Bool) → Before a b → Before b c → Before a c
Before-trans [] b c h k = absurd h
Before-trans (x ∷ a) [] c h k = absurd h
Before-trans (x ∷ a) (y ∷ b) [] h k = absurd k
Before-trans (true ∷ a) (true ∷ b) (true ∷ c) h k = Before-trans a b c h k
Before-trans (true ∷ a) (true ∷ b) (false ∷ c) h k = absurd k
Before-trans (true ∷ a) (false ∷ b) (true ∷ c) h k = absurd h
Before-trans (true ∷ a) (false ∷ b) (false ∷ c) h k = absurd h
Before-trans (false ∷ a) (true ∷ b) (true ∷ c) h k = tt
Before-trans (false ∷ a) (true ∷ b) (false ∷ c) h k = absurd k
Before-trans (false ∷ a) (false ∷ b) (true ∷ c) h k = tt
Before-trans (false ∷ a) (false ∷ b) (false ∷ c) h k = Before-trans a b c h k

-- A string below the first of two is below the second.
pub lex-Before : (l a b : List Bool) → lex l a ≡ Ordering.lt → Before a b → lex l b ≡ Ordering.lt
lex-Before l [] b e h = absurd h
lex-Before l (x ∷ a) [] e h = absurd h
lex-Before [] (x ∷ a) (y ∷ b) e h = refl
lex-Before (true ∷ l) (true ∷ a) (true ∷ b) e h = lex-Before l a b e h
lex-Before (true ∷ l) (true ∷ a) (false ∷ b) e h = absurd h
lex-Before (true ∷ l) (false ∷ a) (true ∷ b) e h = cc
lex-Before (true ∷ l) (false ∷ a) (false ∷ b) e h = cc
lex-Before (false ∷ l) (true ∷ a) (true ∷ b) e h = refl
lex-Before (false ∷ l) (true ∷ a) (false ∷ b) e h = absurd h
lex-Before (false ∷ l) (false ∷ a) (true ∷ b) e h = refl
lex-Before (false ∷ l) (false ∷ a) (false ∷ b) e h = lex-Before l a b e h

pub Before-irrefl : (a l : List Bool) → Before a l → IsPrefix l a → ⊥
Before-irrefl [] l h k = h
Before-irrefl (x ∷ a) [] h k = h
Before-irrefl (true ∷ a) (true ∷ l) h k = Before-irrefl a l h k
Before-irrefl (true ∷ a) (false ∷ l) h k = h
Before-irrefl (false ∷ a) (true ∷ l) h k = k
Before-irrefl (false ∷ a) (false ∷ l) h k = Before-irrefl a l h k

pub Before-irrefl_right : (a l : List Bool) → Before l a → IsPrefix l a → ⊥
Before-irrefl_right [] [] h k = h
Before-irrefl_right [] (y ∷ l) h k = h
Before-irrefl_right (x ∷ a) [] h k = h
Before-irrefl_right (true ∷ a) (true ∷ l) h k = Before-irrefl_right a l h k
Before-irrefl_right (true ∷ a) (false ∷ l) h k = k
Before-irrefl_right (false ∷ a) (true ∷ l) h k = k
Before-irrefl_right (false ∷ a) (false ∷ l) h k = Before-irrefl_right a l h k

pub IsPrefix-trans : (l p q : List Bool) → IsPrefix l p → IsPrefix p q → IsPrefix l q
IsPrefix-trans l p [] h k = tt
IsPrefix-trans l [] (z ∷ q) h k = absurd k
IsPrefix-trans [] (y ∷ p) (z ∷ q) h k = absurd h
IsPrefix-trans (true ∷ l) (true ∷ p) (true ∷ q) h k = IsPrefix-trans l p q h k
IsPrefix-trans (true ∷ l) (true ∷ p) (false ∷ q) h k = absurd k
IsPrefix-trans (true ∷ l) (false ∷ p) (true ∷ q) h k = absurd h
IsPrefix-trans (true ∷ l) (false ∷ p) (false ∷ q) h k = absurd h
IsPrefix-trans (false ∷ l) (true ∷ p) (true ∷ q) h k = absurd h
IsPrefix-trans (false ∷ l) (true ∷ p) (false ∷ q) h k = absurd h
IsPrefix-trans (false ∷ l) (false ∷ p) (true ∷ q) h k = absurd k
IsPrefix-trans (false ∷ l) (false ∷ p) (false ∷ q) h k = IsPrefix-trans l p q h k
