-- ===== src/Tenancy/Slugs.antt =====
-- The texts that a tenant's name is turned into.
use db_backup_tool.Base.{
  String, Char, code, eqb, Bool, true, false, ◌≡◌, refl, Bool-cases, ◌⊎◌, inl, inr, if◌then◌else◌,
}
use db_backup_tool.Base.Text.Digits.{AllChars}
use db_backup_tool.Tenancy.{is_slug_char, dashed, trim_start, trim_end, slug_of}

-- A small letter, a digit or a dash.
abbrev pub IsSlugChar : Char → Type 0
IsSlugChar c = (is_slug_char c ≡ true) ⊎ (code c ≡ 45)

abbrev pub IsSlug : String → Type 0
IsSlug = AllChars IsSlugChar

dash_once-IsSlug :
    (inside : Bool) (s : String) → IsSlug s → IsSlug (if inside then s else String.◌∷◌ "-" s)
dash_once-IsSlug true s h = h
dash_once-IsSlug false s h = (inr refl, h)

dashed-IsSlug : (inside : Bool) (s : String) → IsSlug (dashed inside s)
unfolding dashed
dashed-IsSlug inside String.[] = tt
dashed-IsSlug inside (String.◌∷◌ c s) = elim (Bool-cases (is_slug_char c)) [
  | inl plain ↦ rw plain (inl plain, dashed-IsSlug false s)
  | inr other ↦ rw other (dash_once-IsSlug inside (dashed true s) (dashed-IsSlug true s))
]

trim_start-IsSlug : (s : String) → IsSlug s → IsSlug (trim_start s)
trim_start-IsSlug String.[] h = tt
trim_start-IsSlug (String.◌∷◌ c s) h = elim (Bool-cases (eqb (code c) 45)) [
  | inl dash ↦ rw dash (h.1)
  | inr other ↦ rw other h
]

trim_end-IsSlug : (s : String) → IsSlug s → IsSlug (trim_end s)
trim_end-IsSlug String.[] h = tt
trim_end-IsSlug (String.◌∷◌ c String.[]) h = elim (Bool-cases (eqb (code c) 45)) [
  | inl dash ↦ rw dash tt
  | inr other ↦ rw other h
]
trim_end-IsSlug (String.◌∷◌ c (String.◌∷◌ d s)) h = (h.0, trim_end-IsSlug (String.◌∷◌ d s) h.1)

-- Whatever the name of a tenant, what `replace` makes of it has only small letters, digits and dashes.
pub slug_of-IsSlug : (name : String) → IsSlug (slug_of name)
unfolding slug_of
slug_of-IsSlug name =
    trim_end-IsSlug (trim_start (dashed false name))
      (trim_start-IsSlug (dashed false name) (dashed-IsSlug false name))
