-- ===== src/Base/Json/Injective.antt =====
-- A quoted text determines the text: what `escape` writes for a character can be read back.
use Prim.Native.Char.{Char, code}
use text.Mathlib.TextEquality.{Char-path}
use text.Mathlib.TextLemmas.{
  append_cancel_left, append_cancel_right, cons-append, nil-append, append_assoc, nil≢cons,
}
use mathlib.Core.Path.{ap₂}
use db_backup_tool.Base.{
  ℕ, zero, suc, ◌+◌, ◌*◌, ◌-◌, ◌/◌, ◌%◌, ◌<◌, ◌≡◌, refl, ap, sym, ◌∙◌, String, ◌<>◌, Bool, true,
  false, eqb, eqb_iff, ◌≢◌, ltb, if◌then◌else◌, arith,
}
use db_backup_tool.Base.Json.Print.{hex_digit, escape_code, escape, quote}

abbrev hex_value : ℕ → ℕ
hex_value n = if ltb n 58 then n - 48 else n - 87

-- The two last digits of a Unicode escape, and what follows them.
read_hex : String → ℕ × String
read_hex (String.◌∷◌ a (String.◌∷◌ b (String.◌∷◌ c (String.◌∷◌ d s)))) =
    (16 * hex_value (code c) + hex_value (code d), s)
read_hex s = (0, s)

-- What a backslash stands for with the character behind it.
read_short : ℕ → String → ℕ × String
unfolding read_hex
read_short n s =
    if eqb n b'b'
    then (8, s)
    else if eqb n b't'
    then (9, s)
    else if eqb n b'n'
    then (10, s)
    else if eqb n b'f'
    then (12, s)
    else if eqb n b'r'
    then (13, s)
    else if eqb n b'u'
    then read_hex s
    else (n, s)

read_escape : String → ℕ × String
unfolding read_short
read_escape String.[] = (0, "")
read_escape (String.◌∷◌ c s) = read_short (code c) s

-- The code of the first character of an escaped text, and what follows it.
read_first : String → ℕ × String
unfolding read_escape
read_first String.[] = (0, "")
read_first (String.◌∷◌ c s) = if eqb (code c) 0x5c then read_escape s else (code c, s)

hex_value-hex_digit : (n : ℕ) → n < 16 → hex_value (code (hex_digit n)) ≡ n
hex_value-hex_digit zero h = refl
hex_value-hex_digit (suc zero) h = refl
hex_value-hex_digit (suc (suc zero)) h = refl
hex_value-hex_digit (suc (suc (suc zero))) h = refl
hex_value-hex_digit (suc (suc (suc (suc zero)))) h = refl
hex_value-hex_digit (suc (suc (suc (suc (suc zero))))) h = refl
hex_value-hex_digit (suc (suc (suc (suc (suc (suc zero)))))) h = refl
hex_value-hex_digit (suc (suc (suc (suc (suc (suc (suc zero))))))) h = refl
hex_value-hex_digit (suc (suc (suc (suc (suc (suc (suc (suc zero)))))))) h = refl
hex_value-hex_digit (suc (suc (suc (suc (suc (suc (suc (suc (suc zero))))))))) h = refl
hex_value-hex_digit (suc (suc (suc (suc (suc (suc (suc (suc (suc (suc zero)))))))))) h = refl
hex_value-hex_digit (suc (suc (suc (suc (suc (suc (suc (suc (suc (suc (suc zero))))))))))) h = refl
hex_value-hex_digit (suc (suc (suc (suc (suc (suc (suc (suc (suc (suc (suc (suc zero)))))))))))) h =
    refl
hex_value-hex_digit
      (suc (suc (suc (suc (suc (suc (suc (suc (suc (suc (suc (suc (suc zero))))))))))))) h =
    refl
hex_value-hex_digit
      (suc (suc (suc (suc (suc (suc (suc (suc (suc (suc (suc (suc (suc (suc zero)))))))))))))) h =
    refl
hex_value-hex_digit
      (suc (suc (suc (suc (suc (suc (suc (suc (suc (suc (suc (suc (suc (suc (suc zero)))))))))))))))
      h =
    refl
hex_value-hex_digit
      (suc
        (suc (suc (suc (suc (suc (suc (suc (suc (suc (suc (suc (suc (suc (suc (suc n))))))))))))))))
      h =
    absurd (omega arith)

-- To prove a property of a conditional text, prove it of the branches.
if_elim :
    (P : String → Type 0) (b : Bool) {s t : String}
    → (b ≡ true → P s)
    → (b ≡ false → P t)
    → P (if b then s else t)
if_elim P true p q = p refl
if_elim P false p q = q refl

append-one : (a : Char) (x : String) → String.◌∷◌ a "" <> x ≡ String.◌∷◌ a x
append-one a x = cons-append a "" x ∙ ap (String.◌∷◌ a) (nil-append x)

append-two :
    (a b : Char) (x : String) → String.◌∷◌ a (String.◌∷◌ b "") <> x ≡ String.◌∷◌ a (String.◌∷◌ b x)
append-two a b x = cons-append a (String.◌∷◌ b "") x ∙ ap (String.◌∷◌ a) (append-one b x)

append-four :
    (a b c d : Char) (x : String)
    → String.◌∷◌ a (String.◌∷◌ b (String.◌∷◌ c (String.◌∷◌ d ""))) <> x
      ≡ String.◌∷◌ a (String.◌∷◌ b (String.◌∷◌ c (String.◌∷◌ d x)))
append-four a b c d x =
    cons-append a _ x ∙ ap (String.◌∷◌ a) (cons-append b _ x ∙ ap (String.◌∷◌ b) (append-two c d x))

module _ (c : Char) (x : String) where
  Reads : String → Type 0
  Reads t = read_first (t <> x) ≡ (code c, x)

  Reads-short :
      (n : ℕ) (b : Char)
      → read_first (String.◌∷◌ "\\" (String.◌∷◌ b x)) ≡ (n, x)
      → eqb (code c) n ≡ true
      → Reads (String.◌∷◌ "\\" (String.◌∷◌ b ""))
  unfolding Reads
  Reads-short n b e h =
      ap read_first (append-two "\\" b x)
      ∙ e
      ∙ ap (λ (k : ℕ). (k, x)) (sym ((eqb_iff (code c) n).0 h))

  value_of_digits :
      ltb (code c) 0x20 ≡ true
      → 16 * hex_value (code (hex_digit (code c / 16))) + hex_value (code (hex_digit (code c % 16)))
        ≡ code c
  value_of_digits h = omega (
    arith,
    hex_value-hex_digit (code c / 16) (ground arith),
    hex_value-hex_digit (code c % 16) (ground arith),
  )

  Reads-control :
      ltb (code c) 0x20 ≡ true
      → Reads (
          "\\u00" <> String.◌∷◌ (hex_digit (code c / 16)) (String.◌∷◌ (hex_digit (code c % 16)) ""))
  unfolding Reads read_first
  Reads-control h =
      ap read_first (
        append_assoc "\\u00" _ x
        ∙ ap (λ t. "\\u00" <> t) (append-two _ _ x)
        ∙ append-four "\\" "u" "0" "0" _)
      ∙ ap (λ (k : ℕ). (k, x)) (value_of_digits h)

  Reads-itself : eqb (code c) 0x5c ≡ false → Reads (String.◌∷◌ c "")
  unfolding Reads read_first
  Reads-itself h = ap read_first (append-one c x) ∙ rw h

  read_first-escape_code : Reads (escape_code (code c) (String.◌∷◌ c ""))
  unfolding escape_code
  read_first-escape_code =
      if_elim Reads (eqb (code c) 0x22) (Reads-short 0x22 "\"" (unfold read_first in refl)) λ _.
        if_elim Reads (eqb (code c) 0x5c) (Reads-short 0x5c "\\" (unfold read_first in refl))
          λ other.
            if_elim Reads (eqb (code c) 8) (Reads-short 8 "b" (unfold read_first in refl)) λ _.
              if_elim Reads (eqb (code c) 9) (Reads-short 9 "t" (unfold read_first in refl)) λ _.
                if_elim Reads (eqb (code c) 10) (Reads-short 10 "n" (unfold read_first in refl))
                  λ _.
                    if_elim Reads (eqb (code c) 12) (Reads-short 12 "f" (unfold read_first in refl))
                      λ _.
                        if_elim Reads (eqb (code c) 13)
                          (Reads-short 13 "r" (unfold read_first in refl))
                          λ _.
                            if_elim Reads (ltb (code c) 0x20) Reads-control λ _. Reads-itself other

escape_code_injective :
    (c d : Char) (x y : String)
    → escape_code (code c) (String.◌∷◌ c "") <> x ≡ escape_code (code d) (String.◌∷◌ d "") <> y
    → (c ≡ d) × (x ≡ y)
unfolding Reads
escape_code_injective c d x y e =
    let same = sym (read_first-escape_code c x) ∙ ap read_first e ∙ read_first-escape_code d y in
    (Char-path c d (ap (λ r. r.0) same), ap (λ r. r.1) same)

-- What `escape` writes for a character is not empty.
escape-ne-nil : (c : Char) (x : String) → "" ≢ escape_code (code c) (String.◌∷◌ c "") <> x
unfolding escape_code
escape-ne-nil c x =
    if_elim NonEmpty (eqb (code c) 0x22) (λ _. starts "\\" "\"")
      λ _.
        if_elim NonEmpty (eqb (code c) 0x5c) (λ _. starts "\\" "\\")
          λ _.
            if_elim NonEmpty (eqb (code c) 8) (λ _. starts "\\" "b")
              λ _.
                if_elim NonEmpty (eqb (code c) 9) (λ _. starts "\\" "t")
                  λ _.
                    if_elim NonEmpty (eqb (code c) 10) (λ _. starts "\\" "n")
                      λ _.
                        if_elim NonEmpty (eqb (code c) 12) (λ _. starts "\\" "f")
                          λ _.
                            if_elim NonEmpty (eqb (code c) 13) (λ _. starts "\\" "r")
                              λ _.
                                if_elim NonEmpty (ltb (code c) 0x20)
                                  (λ _ e. nil≢cons (
                                    e
                                    ∙ ap (λ t. t <> x) (cons-append "\\" "u00" _)
                                    ∙ cons-append _ _ x))
                                  (λ _ e. nil≢cons (e ∙ cons-append c "" x))
  where
    NonEmpty : String → Type 0
    NonEmpty t = "" ≢ t <> x

    starts : (a b : Char) → "" ≢ String.◌∷◌ a (String.◌∷◌ b "") <> x
    starts a b e = nil≢cons (e ∙ cons-append a _ x)

escape_injective : (s t : String) → escape s ≡ escape t → s ≡ t
unfolding escape
escape_injective String.[] String.[] e = refl
escape_injective String.[] (String.◌∷◌ d t) e = absurd (escape-ne-nil d (escape t) e)
escape_injective (String.◌∷◌ c s) String.[] e = absurd (escape-ne-nil c (escape s) (sym e))
escape_injective (String.◌∷◌ c s) (String.◌∷◌ d t) e =
    let (same, rest) = escape_code_injective c d (escape s) (escape t) e in
    ap₂ String.◌∷◌ same (escape_injective s t rest)

-- Behind the same text, a quoted text determines what was quoted.
pub quote_injective : (s t rest : String) → quote s <> rest ≡ quote t <> rest → s ≡ t
unfolding quote
quote_injective s t rest e = escape_injective s t (
    append_cancel_right _ _ "\""
      (append_cancel_left "\"" _ _ (append_cancel_right (quote s) (quote t) rest e)))
