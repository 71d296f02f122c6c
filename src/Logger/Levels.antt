-- ===== src/Logger/Levels.antt =====
-- The levels of code/Logger.hpp and their names in code/Logger.cpp; `none` is an exception.
use mlnotes.Base.{ℕ, ◌+◌, Option, none, some, List, [], ◌∷◌, if◌then◌else◌, codes, get_elem?}
use mlnotes.Format.{strcasecmp_eq}

pub data Level : Type 0 where
  ll_trce : Level
  ll_dbug : Level
  ll_info : Level
  ll_meta : Level
  ll_warn : Level
  ll_crit : Level

-- The number that a level is.
abbrev pub rank : Level → ℕ
rank ll_trce = 0
rank ll_dbug = 1
rank ll_info = 2
rank ll_meta = 3
rank ll_warn = 4
rank ll_crit = 5

abbrev pub ll_default : Level
ll_default = ll_meta

unfoldable pub level_strings : List (List ℕ)
level_strings =
    codes "TRCE" ∷ codes "DBUG" ∷ codes "INFO" ∷ codes "META" ∷ codes "WARN" ∷ codes "CRIT" ∷ []

-- `Level(i)`
abbrev pub level_of : ℕ → Option Level
level_of i = get_elem? (ll_trce ∷ ll_dbug ∷ ll_info ∷ ll_meta ∷ ll_warn ∷ ll_crit ∷ []) i

-- A number that is no level is past the end of the table.
unfoldable pub level_to_string : Level → Option (List ℕ)
unfolding level_strings
level_to_string level = get_elem? level_strings (rank level)

-- The loop over the table from index `i` on.
unfoldable pub find_level : List ℕ → List (List ℕ) → ℕ → Option Level
find_level str [] i = none
find_level str (name ∷ names) i =
    let later = find_level str names (i + 1) in if strcasecmp_eq str name then level_of i else later

unfoldable pub string_to_level : Option (List ℕ) → Option Level
unfolding find_level level_strings
string_to_level none = none
string_to_level (some str) = find_level str level_strings 0
