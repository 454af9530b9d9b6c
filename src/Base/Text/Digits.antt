-- ===== src/Base/Text/Digits.antt =====
-- The characters of texts, and those of printed numbers.
use Prim.Native.String.{String, [], ◌∷◌}
use Prim.Native.Char.{Char, code}
use Prim.Native.Nat.{ℕ, zero, suc, ◌/◌, ◌%◌, compare, Ordering}
use mathlib.Core.Path.{◌≡◌, refl, sym, subst}
use mathlib.Core.Bool.{true, ◌&&◌}
use text.Mathlib.TextLemmas.{nil-append, cons-append}
use db_backup_tool.Base.Tests.{leb}
use db_backup_tool.Base.Text.{◌<>◌, digit, show_from, show_nat}

-- Each character of a text is as `P` says.
abbrev pub AllChars : (Char → Type 0) → String → Type 0
AllChars P [] = Unit
AllChars P (c ∷ s) = P c × AllChars P s

pub AllChars-append :
    (P : Char → Type 0) (a b : String) → AllChars P a → AllChars P b → AllChars P (a <> b)
AllChars-append P [] b h k = subst (AllChars P) (sym (nil-append b)) k
AllChars-append P (c ∷ a) b (p, h) k =
    subst (AllChars P) (sym (cons-append c a b)) (p, AllChars-append P a b h k)

pub AllChars-map :
    (P Q : Char → Type 0) → ((c : Char) → P c → Q c) → (s : String) → AllChars P s → AllChars Q s
AllChars-map P Q f [] h = tt
AllChars-map P Q f (c ∷ s) (p, h) = (f c p, AllChars-map P Q f s h)

-- `[0-9]`
abbrev pub IsDigit : Char → Type 0
IsDigit c = (leb 48 (code c) && leb (code c) 57) ≡ true

digit-IsDigit : (n : ℕ) → AllChars IsDigit (digit n)
digit-IsDigit zero = (refl, tt)
digit-IsDigit (suc zero) = (refl, tt)
digit-IsDigit (suc (suc zero)) = (refl, tt)
digit-IsDigit (suc (suc (suc zero))) = (refl, tt)
digit-IsDigit (suc (suc (suc (suc zero)))) = (refl, tt)
digit-IsDigit (suc (suc (suc (suc (suc zero))))) = (refl, tt)
digit-IsDigit (suc (suc (suc (suc (suc (suc zero)))))) = (refl, tt)
digit-IsDigit (suc (suc (suc (suc (suc (suc (suc zero))))))) = (refl, tt)
digit-IsDigit (suc (suc (suc (suc (suc (suc (suc (suc zero)))))))) = (refl, tt)
digit-IsDigit (suc (suc (suc (suc (suc (suc (suc (suc (suc n))))))))) = (refl, tt)

either-IsDigit :
    (o : Ordering) (a b : String)
    → AllChars IsDigit a
    → AllChars IsDigit b
    → AllChars IsDigit (elim o [ Ordering.lt ↦ a | _ ↦ b ])
either-IsDigit Ordering.lt a b h k = h
either-IsDigit Ordering.eq a b h k = k
either-IsDigit Ordering.gt a b h k = k

show_from-IsDigit :
    (fuel n : ℕ) (rest : String) → AllChars IsDigit rest → AllChars IsDigit (show_from fuel n rest)
unfolding show_from
show_from-IsDigit zero n rest h = h
show_from-IsDigit (suc fuel) n rest h =
    let text = AllChars-append IsDigit (digit (n % 10)) rest (digit-IsDigit (n % 10)) h in
    either-IsDigit (compare n 10) (digit (n % 10) <> rest) _ text
      (show_from-IsDigit fuel (n / 10) (digit (n % 10) <> rest) text)

-- A printed number has digits only.
pub show_nat-IsDigit : (n : ℕ) → AllChars IsDigit (show_nat n)
unfolding show_nat
show_nat-IsDigit n = show_from-IsDigit (suc n) n "" tt
