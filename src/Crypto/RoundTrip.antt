-- ===== src/Crypto/RoundTrip.antt =====
-- What is encrypted can be decrypted, in the same environment.
use text.Mathlib.TextLemmas.{cons-append, nil-append}
use mathlib.Core.Path.{ap₂}
use db_backup_tool.Base.{ℕ, String, ◌<>◌, ◌≡◌, sym, ap, ◌∙◌, List, [], ◌∷◌}
use db_backup_tool.Base.Text.Split.{split, split_last, split-append, Lacks}
use db_backup_tool.Errors.{ok}
use db_backup_tool.Effects.{random_bytes}
use db_backup_tool.Effects.Inputs.{EncryptedSecret}
use db_backup_tool.Effects.Io.{Env, History, call, asks, lift}
use db_backup_tool.Effects.Invert.{bind-ok, asks-ok, lift-ok}
use db_backup_tool.Crypto.{
  Sealed, seal, pack, secret_of, get_kek, aes_encrypt, wrap_dek, open_segments, and_then,
  unwrap_dek, encrypt_secret, decrypt_secret,
}

-- What the code relies on: the cipher and the two codings can be undone, and base64 has no colon.
pub record IsReversible (env : Env) : Type 0 where
  pub cipher :
      (key iv plaintext : List ℕ)
      → (let sealed = env.aes_encrypt key iv plaintext in
          env.aes_decrypt key iv sealed.0 sealed.1 ≡ ok plaintext)
  pub base64_back : (bytes : List ℕ) → env.from_base64 (env.base64 bytes) ≡ bytes
  pub base64_plain : (bytes : List ℕ) → Lacks b':' (env.base64 bytes)
  pub utf8_back : (text : String) → env.from_utf8 (env.utf8 text) ≡ text

aes_decrypt-sealed :
    (env : Env) (key plaintext iv : List ℕ)
    → IsReversible env
    → (let sealed = seal env key plaintext iv in
        env.aes_decrypt key sealed.iv sealed.tag sealed.body ≡ ok plaintext)
unfolding seal
aes_decrypt-sealed env key plaintext iv reversible = reversible.cipher key iv plaintext

aes_encrypt-ok :
    (env : Env) (h : History) (key plaintext : List ℕ) {sealed : Sealed} {h' : History}
    → aes_encrypt key plaintext env h ≡ (ok sealed, h')
    → (iv : List ℕ) × (sealed ≡ seal env key plaintext iv)
unfolding aes_encrypt
aes_encrypt-ok env h key plaintext e =
    let (iv, h₁, drawn, rest) =
      bind-ok (call (random_bytes 12)) (λ iv. asks (λ v. seal v key plaintext iv)) env h e in
    (iv, sym (asks-ok (λ v. seal v key plaintext iv) env h₁ rest).0)

colon : (x : String) → ":" <> x ≡ String.◌∷◌ ":" x
colon x = cons-append ":" "" x ∙ ap (String.◌∷◌ ":") (nil-append x)

-- A segment without a colon, up to the colon behind it.
segment : (a x : String) → Lacks b':' a → split b':' (a <> ":" <> x) ≡ a ∷ split b':' x
segment a x p = ap (λ t. split b':' (a <> t)) (colon x) ∙ split-append ":" a x p

joined :
    (a b c : String)
    → Lacks b':' a
    → Lacks b':' b
    → Lacks b':' c
    → split b':' (a <> ":" <> b <> ":" <> c) ≡ a ∷ b ∷ c ∷ []
joined a b c p q r =
    segment a (b <> ":" <> c) p
    ∙ ap (λ t. a ∷ t) (segment b c q ∙ ap (λ t. b ∷ t) (split_last b':' c r))

split-pack :
    (env : Env) (sealed : Sealed)
    → IsReversible env
    → split b':' (pack env sealed)
      ≡ env.base64 sealed.iv ∷ env.base64 sealed.tag ∷ env.base64 sealed.body ∷ []
unfolding pack
split-pack env sealed reversible =
    joined (env.base64 sealed.iv) (env.base64 sealed.tag) (env.base64 sealed.body)
      (reversible.base64_plain sealed.iv) (reversible.base64_plain sealed.tag)
      (reversible.base64_plain sealed.body)

open_segments-base64 :
    (env : Env) (kek : List ℕ) (sealed : Sealed)
    → IsReversible env
    → open_segments env kek
        (env.base64 sealed.iv ∷ env.base64 sealed.tag ∷ env.base64 sealed.body ∷ [])
      ≡ env.aes_decrypt kek sealed.iv sealed.tag sealed.body
unfolding open_segments
open_segments-base64 env kek sealed reversible = λ i.
    env.aes_decrypt kek (reversible.base64_back sealed.iv i) (reversible.base64_back sealed.tag i)
      (reversible.base64_back sealed.body i)

-- The wrapped key gives the key back.
unwrap-pack :
    (env : Env) (kek dek iv : List ℕ)
    → IsReversible env
    → get_kek env ≡ ok kek
    → unwrap_dek env (pack env (seal env kek dek iv)) ≡ ok dek
unfolding unwrap_dek
unwrap-pack env kek dek iv reversible master =
    ap
      (λ k. and_then k (λ key. open_segments env key (split b':' (pack env (seal env kek dek iv)))))
      master
    ∙ ap (open_segments env kek) (split-pack env (seal env kek dek iv) reversible)
    ∙ open_segments-base64 env kek (seal env kek dek iv) reversible
    ∙ aes_decrypt-sealed env kek dek iv reversible

wrap_dek-ok :
    (env : Env) (h : History) (dek : List ℕ) {wrapped : String} {h' : History}
    → wrap_dek dek env h ≡ (ok wrapped, h')
    → (kek : List ℕ) × (iv : List ℕ) × (get_kek env ≡ ok kek)
      × (wrapped ≡ pack env (seal env kek dek iv))
unfolding wrap_dek
wrap_dek-ok env h dek e =
    let (kek, h₁, master, rest) = bind-ok (λ v. lift (get_kek v) v) _ env h e in
    let (sealed, h₂, made, last) = bind-ok (aes_encrypt kek dek) _ env h₁ rest in
    let (iv, same) = aes_encrypt-ok env h₁ kek dek made in
    (
      kek,
      iv,
      (lift-ok (get_kek env) env h master).0,
      sym (asks-ok (λ v. pack v sealed) env h₂ last).0 ∙ ap (pack env) same,
    )

decrypt-secret_of :
    (env : Env) (sealed : Sealed) (wrapped : String) (dek plain : List ℕ)
    → IsReversible env
    → unwrap_dek env wrapped ≡ ok dek
    → env.aes_decrypt dek sealed.iv sealed.tag sealed.body ≡ ok plain
    → decrypt_secret env (secret_of env sealed wrapped) ≡ ok (env.from_utf8 plain)
unfolding decrypt_secret secret_of
decrypt-secret_of env sealed wrapped dek plain reversible unwrapped opened =
    ap
      (λ k. and_then k λ key.
        and_then
          (env.aes_decrypt key (env.from_base64 (env.base64 sealed.iv))
            (env.from_base64 (env.base64 sealed.tag)) (env.from_base64 (env.base64 sealed.body)))
          (λ p. ok (env.from_utf8 p)))
      unwrapped
    ∙ ap (λ k. and_then k (λ p. ok (env.from_utf8 p)))
        ((λ i.
            env.aes_decrypt dek (reversible.base64_back sealed.iv i)
              (reversible.base64_back sealed.tag i) (reversible.base64_back sealed.body i))
          ∙ opened)

secret_back :
    (env : Env) (dek kek iv iv' : List ℕ) (plaintext : String)
    → IsReversible env
    → get_kek env ≡ ok kek
    → decrypt_secret env
        (secret_of env (seal env dek (env.utf8 plaintext) iv) (pack env (seal env kek dek iv')))
      ≡ ok plaintext
secret_back env dek kek iv iv' plaintext reversible master =
    decrypt-secret_of env (seal env dek (env.utf8 plaintext) iv) _ dek (env.utf8 plaintext)
      reversible (unwrap-pack env kek dek iv' reversible master)
      (aes_decrypt-sealed env dek (env.utf8 plaintext) iv reversible)
    ∙ ap ok (reversible.utf8_back plaintext)

-- `decryptSecret` gives back what `encryptSecret` was given: under a cipher and codings that can be
-- undone, whatever the random bytes were.
pub decrypt-encrypt :
    (env : Env) (h : History) (plaintext : String) {enc : EncryptedSecret} {h' : History}
    → IsReversible env
    → encrypt_secret plaintext env h ≡ (ok enc, h')
    → decrypt_secret env enc ≡ ok plaintext
unfolding encrypt_secret
decrypt-encrypt env h plaintext {enc} reversible e =
    let (dek, h₁, drawn, rest) = bind-ok (call (random_bytes 32)) _ env h e in
    let (plain, h₂, coded, rest₂) = bind-ok (asks (λ v. v.utf8 plaintext)) _ env h₁ rest in
    let (sealed, h₃, made, rest₃) = bind-ok (aes_encrypt dek plain) _ env h₂ rest₂ in
    let (wrapped, h₄, wrapping, last) = bind-ok (wrap_dek dek) _ env h₃ rest₃ in
    let (same_plain, q) = asks-ok (λ v. v.utf8 plaintext) env h₁ coded in
    let (iv, same_sealed) = aes_encrypt-ok env h₂ dek plain made in
    let (kek, iv', master, same_wrapped) = wrap_dek-ok env h₃ dek wrapping in
    let (same_enc, q') = asks-ok (λ v. secret_of v sealed wrapped) env h₄ last in
    let parts =
      ap₂ (secret_of env) (same_sealed ∙ ap (λ p. seal env dek p iv) (sym same_plain))
        same_wrapped in
    ap (decrypt_secret env) (sym same_enc ∙ parts)
    ∙ secret_back env dek kek iv iv' plaintext reversible master
