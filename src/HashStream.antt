-- ===== src/HashStream.antt =====
-- src/lib/hashStream.ts: the pass-through stream that hashes and counts what flows through it.
use db_backup_tool.Base.{
  ℕ, ◌+◌, String, List, [], ◌∷◌, ◌++◌, length, ◌≡◌, refl, ap, sym, ◌∙◌, arith, append_assoc,
  append-nil, eqb, if◌then◌else◌,
}
use db_backup_tool.Effects.Io.{Env}

-- `HashingStream`: the chunks fed to its hash object, in order, and its counter.
pub record HashingStream : Type 0 where
  pub hashed : List (List ℕ)
  pub bytes : ℕ

abbrev pub new_stream : HashingStream
new_stream = record { hashed = []; bytes = 0 }

-- `_transform`: the new state, and the chunk that it pushes.
unfoldable pub transform : HashingStream → (chunk : List ℕ) → HashingStream × List ℕ
transform s chunk =
    (record { hashed = s.hashed ++ chunk ∷ []; bytes = s.bytes + length chunk }, chunk)

-- `digest`
unfoldable pub digest : Env → HashingStream → String
digest env s = env.digest s.hashed

-- The stream after some chunks, and what comes out of it.
unfoldable pub through : HashingStream → List (List ℕ) → HashingStream × List (List ℕ)
through s [] = (s, [])
through s (c ∷ cs) =
    let (next, out) = transform s c in let (last, outs) = through next cs in (last, out ∷ outs)

-- `hasher.bytes || put.size`
unfoldable pub size_of : HashingStream → (put_size : ℕ) → ℕ
size_of s put_size = if eqb s.bytes 0 then put_size else s.bytes

-- The number of bytes of some chunks.
abbrev pub total : List (List ℕ) → ℕ
total [] = 0
total (c ∷ cs) = length c + total cs

-- What comes out of the stream is what went in, chunk by chunk; the hash has been fed these chunks
-- in their order, and the counter has grown by their bytes.
through_lem :
    (s : HashingStream) (chunks : List (List ℕ))
    → (through s chunks).1 ≡ chunks
      × ((through s chunks).0.hashed ≡ s.hashed ++ chunks)
      × ((through s chunks).0.bytes ≡ s.bytes + total chunks)
unfolding through transform
through_lem s [] = (refl, sym (append-nil s.hashed), omega arith)
through_lem s (c ∷ cs) =
    let (out, hashed, bytes) = through_lem (transform s c).0 cs in
    (ap (λ l. c ∷ l) out, hashed ∙ append_assoc s.hashed (c ∷ []) cs, omega (arith, bytes))
