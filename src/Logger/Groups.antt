-- ===== src/Logger/Groups.antt =====
-- The levels of the groups of code/Logger.cpp and Logger.hpp: an entry per group, and the settings
-- of the places that log, each of which refers to the entry of its group. The reference is the name.
pub mod Entries
pub mod Calls
use mlnotes.Base.{
  ℕ, ◌+◌, ◌≤◌, ◌<◌, ◌≡◌, ◌≢◌, ◌⊎◌, inl, inr, refl, Bool, true, false, Bool-cases, Option, none,
  some, List, [], ◌∷◌, ◌++◌, arith, map, length, length-append, leb, if◌then◌else◌, ◌>>=◌, codes,
  c_text, get_elem?, ap, sym, ◌∙◌,
}
use mlnotes.Format.{same_bytes}
use mlnotes.Logger.{LogSettings}
use mlnotes.Logger.Levels.{Level, rank, ll_default, level_strings, level_to_string, string_to_level}

abbrev pub LevelMap : Type 0
LevelMap = List (List ℕ × Level)

unfoldable pub find_group : List ℕ → LevelMap → Option Level
find_group group [] = none
find_group group ((g, level) ∷ levels) =
    let later = find_group group levels in if same_bytes g group then some level else later

-- `m_levels.insert`: an entry that is there stays; the result is the entry's level.
unfoldable pub insert : List ℕ → Level → LevelMap → Level × LevelMap
insert group level [] = (level, (group, level) ∷ [])
insert group level ((g, old) ∷ levels) =
    let later = insert group level levels in
    if same_bytes g group then (old, (g, old) ∷ levels) else (later.0, (g, old) ∷ later.1)

unfoldable pub set_group_level : Level → List ℕ → LevelMap → LevelMap
set_group_level lev group [] = (group, lev) ∷ []
set_group_level lev group ((g, old) ∷ levels) =
    let later = set_group_level lev group levels in
    if same_bytes g group then (g, lev) ∷ levels else (g, old) ∷ later

unfoldable pub test_group_level : Level → List ℕ → LevelMap → Bool × LevelMap
test_group_level lev group levels =
    let (gl, levels') = insert group ll_default levels in (leb (rank gl) (rank lev), levels')

-- `getGroupLevel`, which is `getDefaultLevel`.
unfoldable pub get_group_level : List ℕ → Option (List ℕ)
get_group_level grp = get_elem? level_strings (rank ll_default)

-- The constructor of the settings; every name of a level fills the width of `%4s`.
unfoldable pub new_settings : Level → List ℕ → List ℕ → Option LogSettings
new_settings level grp sig = level_to_string level >>= (λ name. some (record {
  group = grp;
  header = name ++ (codes " path {{" ++ (sig ++ codes "}} :"));
  local_level = level;
}))

-- `m_settings` and `m_levels`.
pub record Groups : Type 0 where
  pub settings : List LogSettings
  pub levels : LevelMap

-- A null pointer is `none`, and so is an exception; the other result is the place of the settings.
unfoldable pub create_settings :
    Level → Option (List ℕ) → Option (List ℕ) → Option (List ℕ) → Groups → Option (ℕ × Groups)
create_settings level none loc sig s = none
create_settings level (some grp) none sig s = none
create_settings level (some grp) (some loc) none s = none
create_settings level (some grp) (some loc) (some sig) s = do
  default_level ← string_to_level (get_group_level (c_text grp))
  let levels = (insert (c_text grp) default_level s.levels).1
  ps ← new_settings level (c_text grp) (c_text sig)
  some (length s.settings, record { settings = s.settings ++ (ps ∷ []); levels = levels })

-- `isLoggable` reads the entry through the reference; `none` is a dangling one.
unfoldable pub is_loggable : LogSettings → LevelMap → Option Bool
is_loggable ps levels =
    find_group ps.group levels >>= (λ gl. some (leb (rank gl) (rank ps.local_level)))

unfoldable pub get_all_groups : LevelMap → Option (List (List ℕ × List ℕ))
get_all_groups [] = some []
get_all_groups ((g, level) ∷ levels) = do
  name ← level_to_string level
  rest ← get_all_groups levels
  some ((g, name) ∷ rest)
