-- ===== src/Logger/Names.antt =====
-- The names of the levels of code/Logger.cpp, read and printed.
use mlnotes.Base.{
  ℕ, ◌≡◌, ◌↔◌, refl, inl, inr, Bool-cases, ap, subst, ◌∙◌, Option, none, if◌then◌else◌, [], ◌∷◌,
  some, List, arith, codes,
}
use mathlib.Core.Option.{some-injective}
use mlnotes.StringTools.Edit.{to_lower_case, tolower}
use mlnotes.Format.{same_bytes, strcasecmp_eq}
use mlnotes.Format.Logic.{same_bytes_iff}
use mlnotes.Logger.Levels.{
  Level, ll_trce, ll_dbug, ll_info, ll_meta, ll_warn, ll_crit, level_strings, level_to_string,
  find_level, string_to_level,
}

abbrev pub name_of : Level → List ℕ
name_of ll_trce = codes "TRCE"
name_of ll_dbug = codes "DBUG"
name_of ll_info = codes "INFO"
name_of ll_meta = codes "META"
name_of ll_warn = codes "WARN"
name_of ll_crit = codes "CRIT"

-- The tests of the loop, on a text in lower case, and the levels from one on.
abbrev pick_from : List ℕ → List Level → Option Level
pick_from w [] = none
pick_from w (l ∷ ls) =
    let later = pick_from w ls in if same_bytes w (to_lower_case (name_of l)) then some l else later

abbrev all_levels : List Level
all_levels = ll_trce ∷ ll_dbug ∷ ll_info ∷ ll_meta ∷ ll_warn ∷ ll_crit ∷ []

string_to_level-pick :
    (str : List ℕ) → string_to_level (some str) ≡ pick_from (to_lower_case str) all_levels
unfolding string_to_level find_level level_strings strcasecmp_eq
string_to_level-pick str = refl

pick_from_sound :
    (w : List ℕ) (ls : List Level) (level : Level)
    → pick_from w ls ≡ some level
    → w ≡ to_lower_case (name_of level)
pick_from_sound w [] level h = ground arith
pick_from_sound w (l ∷ ls) level h = elim (Bool-cases (same_bytes w (to_lower_case (name_of l)))) [
  | inl e ↦
      subst (λ k. w ≡ to_lower_case (name_of k)) (some-injective l level (rw e at h))
        ((same_bytes_iff _ _).0 e)
  | inr e ↦ pick_from_sound w ls level (rw e at h)
]

pick_from_name : (level : Level) → pick_from (to_lower_case (name_of level)) all_levels ≡ some level
unfolding same_bytes to_lower_case tolower
pick_from_name ll_trce = refl
pick_from_name ll_dbug = refl
pick_from_name ll_info = refl
pick_from_name ll_meta = refl
pick_from_name ll_warn = refl
pick_from_name ll_crit = refl

pub level_to_string-name : (level : Level) → level_to_string level ≡ some (name_of level)
unfolding level_to_string level_strings
level_to_string-name ll_trce = refl
level_to_string-name ll_dbug = refl
level_to_string-name ll_info = refl
level_to_string-name ll_meta = refl
level_to_string-name ll_warn = refl
level_to_string-name ll_crit = refl

-- Every level has a name, and a text is read as a level exactly when, in lower case, it is that
-- level's name in lower case.
pub string_to_level_iff :
    (str : List ℕ) (level : Level)
    → (level_to_string level ≡ some (name_of level))
      × ((string_to_level (some str) ≡ some level)
          ↔ (to_lower_case str ≡ to_lower_case (name_of level)))
string_to_level_iff str level = (
  level_to_string-name level,
  rw (string_to_level-pick str) (
    pick_from_sound (to_lower_case str) all_levels level,
    λ h. ap (λ w. pick_from w all_levels) h ∙ pick_from_name level,
  ),
)
