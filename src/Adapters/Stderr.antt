-- ===== src/Adapters/Stderr.antt =====
-- What is kept of a tool's standard error.
use db_backup_tool.Base.{
  ℕ, zero, suc, ◌+◌, ◌-◌, ◌≤◌, ltb, List, [], ◌∷◌, ◌++◌, length, drop, concat, map, length-append,
  length-drop, append_assoc, append-nil, ◌≡◌, refl, sym, ap, ◌∙◌, Bool-cases, inl, inr, arith,
}
use native.Mathlib.Nat.{suc-add}
use db_backup_tool.Adapters.Tools.{Decoder, tail_of, buffered}

-- The last `n` units of a text.
abbrev pub last : ℕ → List ℕ → List ℕ
last n s = drop (length s - n) s

drop-append : (k : ℕ) (s t : List ℕ) → k ≤ length s → drop k s ++ t ≡ drop k (s ++ t)
drop-append zero s t h = refl
drop-append (suc k) [] t h = absurd (omega arith)
drop-append (suc k) (c ∷ s) t h = drop-append k s t (omega arith)

drop-nil : (k : ℕ) → drop {A = ℕ} k [] ≡ []
drop-nil zero = refl
drop-nil (suc k) = refl

drop-drop : (m k : ℕ) (s : List ℕ) → drop m (drop k s) ≡ drop (k + m) s
drop-drop m zero s = ap (λ n. drop n s) (omega arith)
drop-drop m (suc k) [] = drop-nil m ∙ sym (drop-nil (suc k + m))
drop-drop m (suc k) (c ∷ s) = drop-drop m k s ∙ ap (λ n. drop n (c ∷ s)) (sym (suc-add k m))

last-append : (n : ℕ) (s t : List ℕ) → last n (last n s ++ t) ≡ last n (s ++ t)
last-append n s t =
    let k = length s - n in
    ap (last n) (drop-append k s t (omega arith))
    ∙ drop-drop (length (drop k (s ++ t)) - n) k (s ++ t)
    ∙ ap (λ m. drop m (s ++ t)) (omega (arith, length-drop k (s ++ t), length-append s t))

none_dropped : (s : List ℕ) → length s - 8192 ≡ 0 → last 8192 s ≡ s
none_dropped s e = ap (λ k. drop k s) e

tail_of_lem : (s : List ℕ) → tail_of s ≡ last 8192 s
unfolding tail_of
tail_of_lem s = elim (Bool-cases (ltb 8192 (length s))) [
  | inl long ↦ rw long refl
  | inr short ↦ rw short (sym (none_dropped s (ground arith)))
]

buffered-last :
    (decode : Decoder) (buf : List ℕ) (chunks : List (List ℕ))
    → buffered decode (last 8192 buf) chunks ≡ last 8192 (buf ++ concat (map decode chunks))
unfolding buffered
buffered-last decode buf [] = ap (last 8192) (sym (append-nil buf))
buffered-last decode buf (chunk ∷ chunks) =
    ap (λ s. buffered decode s chunks)
      (tail_of_lem (last 8192 buf ++ decode chunk) ∙ last-append 8192 buf (decode chunk))
    ∙ buffered-last decode (buf ++ decode chunk) chunks
    ∙ ap (last 8192) (append_assoc buf (decode chunk) (concat (map decode chunks)))

-- What is kept of a tool's standard error is the last 8192 units of its chunks, each of them decoded by
-- itself, however long the chunks are.
pub buffered_lem :
    (decode : Decoder) (chunks : List (List ℕ))
    → buffered decode [] chunks ≡ last 8192 (concat (map decode chunks))
buffered_lem decode chunks = buffered-last decode [] chunks

-- A character that is cut is lost: where a decoder gives the bytes 195 and 169 together as one unit and
-- each of them alone as U+FFFD, what is kept depends on the cut.
buffered-cut :
    (decode : Decoder)
    → decode (195 ∷ 169 ∷ []) ≡ 233 ∷ []
    → decode (195 ∷ []) ≡ 65533 ∷ []
    → decode (169 ∷ []) ≡ 65533 ∷ []
    → (buffered decode [] ((195 ∷ 169 ∷ []) ∷ []) ≡ 233 ∷ [])
      × (buffered decode [] ((195 ∷ []) ∷ (169 ∷ []) ∷ []) ≡ 65533 ∷ 65533 ∷ [])
buffered-cut decode whole first second =
    (buffered_lem decode _ ∙ rw whole refl, buffered_lem decode _ ∙ rw first (rw second refl))
