-- ===== src/Base/Text/Split.antt =====
-- `s.split(c)` at a character, given by its code, and how it undoes a join.
use Prim.Native.String.{String, [], ◌∷◌}
use Prim.Native.Char.{Char, code}
use Prim.Native.Nat.{ℕ}
use mathlib.Core.Path.{◌≡◌, refl, ap, ◌∙◌}
use mathlib.Core.Logic.{◌≢◌}
use mathlib.Core.List.{List}
use text.Mathlib.TextLemmas.{nil-append, cons-append}
use native.Mathlib.Omega.{arith}
use db_backup_tool.Base.Tests.{eqb, if◌then◌else◌}
use db_backup_tool.Base.Text.{◌<>◌}

-- A character in front of the first part.
abbrev push_first : Char → List String → List String
push_first c List.[] = List.◌∷◌ (c ∷ "") List.[]
push_first c (List.◌∷◌ x xs) = List.◌∷◌ (c ∷ x) xs

unfoldable pub split : ℕ → String → List String
split n [] = List.◌∷◌ "" List.[]
split n (c ∷ s) = if eqb (code c) n then List.◌∷◌ "" (split n s) else push_first c (split n s)

abbrev pub Lacks : ℕ → String → Type 0
Lacks n [] = Unit
Lacks n (c ∷ s) = (code c ≢ n) × Lacks n s

pub split_last : (n : ℕ) (a : String) → Lacks n a → split n a ≡ List.◌∷◌ a List.[]
unfolding split
split_last n [] h = refl
split_last n (c ∷ s) h = ground (arith, split_last n s h.1)

split-here :
    (n : ℕ) (c : Char) (b : String) → code c ≡ n → split n (c ∷ b) ≡ List.◌∷◌ "" (split n b)
unfolding split
split-here n c b e = ground arith

split-later :
    (n : ℕ) (c : Char) (s : String) → code c ≢ n → split n (c ∷ s) ≡ push_first c (split n s)
unfolding split
split-later n c s h = ground arith

-- The part in front of the first separator.
pub split-append :
    (c : Char) (a b : String)
    → Lacks (code c) a
    → split (code c) (a <> (c ∷ b)) ≡ List.◌∷◌ a (split (code c) b)
split-append c [] b h = ap (split (code c)) (nil-append (c ∷ b)) ∙ split-here (code c) c b refl
split-append c (d ∷ a) b h =
    ap (split (code c)) (cons-append d a (c ∷ b))
    ∙ split-later (code c) d (a <> (c ∷ b)) h.0
    ∙ ap (push_first d) (split-append c a b h.1)
