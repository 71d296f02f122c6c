-- ===== src/Logger/Groups/Calls.antt =====
-- The settings that refer to the levels of the groups of code/Logger.cpp, under every sequence of
-- calls that make settings or set and test levels.
use mlnotes.Base.{
  ℕ, zero, suc, ◌≡◌, ◌≢◌, ◌⊎◌, inl, inr, refl, Option, none, some, List, [], ◌∷◌, ◌++◌, arith,
  length, leb, codes, c_text, get_elem?, ap, sym, ◌∙◌,
}
use mathlib.Core.Option.{some-injective}
use mlnotes.Logger.{LogSettings}
use mlnotes.Logger.Levels.{Level, rank, ll_default, ll_meta, level_strings, string_to_level}
use mlnotes.Logger.Names.{name_of, level_to_string-name, string_to_level_iff}
use mlnotes.Logger.Groups.{
  Groups, LevelMap, find_group, insert, set_group_level, test_group_level, get_group_level,
  new_settings, create_settings, is_loggable,
}
use mlnotes.Logger.Groups.Entries.{
  find_group-set_same, find_group-set_other, find_group-insert, find_group-insert_same,
  find_group-set_some,
}

-- A call of the logger that reads or writes its groups.
pub data Call : Type 0 where
  create : Level → Option (List ℕ) → Option (List ℕ) → Option (List ℕ) → Call
  set : Level → List ℕ → Call
  test : Level → List ℕ → Call

-- A call that ends by an exception leaves the state as it was.
abbrev after : Groups → Option (ℕ × Groups) → Groups
after s none = s
after s (some r) = r.1

pub call : Groups → Call → Groups
call s (create level grp loc sig) = after s (create_settings level grp loc sig s)
call s (set lev group) = record s { levels = set_group_level lev group s.levels }
call s (test lev group) = record s { levels = (test_group_level lev group s.levels).1 }

pub calls : Groups → List Call → Groups
calls s [] = s
calls s (c ∷ cs) = calls (call s c) cs

-- The group of every settings object has its entry: no reference dangles.
abbrev pub IsLinked : Groups → Type 0
IsLinked s =
    (i : ℕ) (ps : LogSettings)
    → get_elem? s.settings i ≡ some ps
    → (gl : Level) × (find_group ps.group s.levels ≡ some gl)

-- What is kept of `s` in a later state: its settings are at their places.
abbrev pub Keeps : Groups → Groups → Type 0
Keeps s s' =
    (i : ℕ) (ps : LogSettings)
    → get_elem? s.settings i ≡ some ps
    → get_elem? s'.settings i ≡ some ps

-- A settings object that is made.
pub record Created (level : Level) (grp : List ℕ) (s : Groups) (got : Option (ℕ × Groups))
    : Type 0 where
  pub ps : LogSettings
  pub done :
      got
      ≡ some (
        length s.settings,
        record { settings = s.settings ++ (ps ∷ []); levels = (insert grp ll_default s.levels).1 },
      )
  pub same_group : ps.group ≡ grp
  pub same_level : ps.local_level ≡ level

default_level_lem : (grp : List ℕ) → string_to_level (get_group_level grp) ≡ some ll_default
unfolding get_group_level level_strings
default_level_lem grp = (string_to_level_iff _ ll_meta).1.1 refl

-- With no null pointer, `createSettings` keeps new settings of the level and the group at the end of
-- the deque, gives the group the default level if it has none, and returns the place of the
-- settings; with a null pointer it throws.
pub create_settings_lem :
    (level : Level) (grp loc sig : List ℕ) (s : Groups)
    → Created level (c_text grp) s (create_settings level (some grp) (some loc) (some sig) s)
unfolding create_settings new_settings
create_settings_lem level grp loc sig s = record {
  ps = record {
    group = c_text grp;
    header = name_of level ++ (codes " path {{" ++ (c_text sig ++ codes "}} :"));
    local_level = level;
  };
  done = rw (default_level_lem (c_text grp), level_to_string-name level) refl;
  same_group = refl;
  same_level = refl;
}

same_Linked : (s : Groups) → IsLinked s → IsLinked s × Keeps s s
same_Linked s h = (h, λ i ps q. q)

get_elem?-append_left :
    (xs ys : List LogSettings) (i : ℕ) (a : LogSettings)
    → get_elem? xs i ≡ some a
    → get_elem? (xs ++ ys) i ≡ some a
get_elem?-append_left [] ys i a h = ground arith
get_elem?-append_left (x ∷ xs) ys zero a h = h
get_elem?-append_left (x ∷ xs) ys (suc i) a h = get_elem?-append_left xs ys i a h

get_elem?-append_one :
    (xs : List LogSettings) (x : LogSettings) (i : ℕ) (a : LogSettings)
    → get_elem? (xs ++ (x ∷ [])) i ≡ some a
    → (get_elem? xs i ≡ some a) ⊎ (x ≡ a)
get_elem?-append_one [] x zero a h = inr (some-injective x a h)
get_elem?-append_one [] x (suc i) a h = ground arith
get_elem?-append_one (y ∷ xs) x zero a h = inl h
get_elem?-append_one (y ∷ xs) x (suc i) a h = get_elem?-append_one xs x i a h

call_created :
    (level : Level) (grp loc sig : List ℕ) (s : Groups)
    → call s (create level (some grp) (some loc) (some sig)) ≡ record {
      settings = s.settings ++ ((create_settings_lem level grp loc sig s).ps ∷ []);
      levels = (insert (c_text grp) ll_default s.levels).1;
    }
unfolding call
call_created level grp loc sig s = ap (after s) ((create_settings_lem level grp loc sig s).done)

created_Linked :
    (level : Level) (grp loc sig : List ℕ) (s : Groups)
    → IsLinked s
    → let s' = call s (create level (some grp) (some loc) (some sig)) in IsLinked s' × Keeps s s'
created_Linked level grp loc sig s h =
    let c = create_settings_lem level grp loc sig s in
    rw (call_created level grp loc sig s) (
      λ i ps q. elim (get_elem?-append_one s.settings c.ps i ps q) [
        | inl old ↦
            let e = h i ps old in
            (e.0, find_group-insert (c_text grp) ps.group ll_default e.0 s.levels e.1)
        | inr new ↦ (
          (insert (c_text grp) ll_default s.levels).0,
          ap (λ g. find_group g (insert (c_text grp) ll_default s.levels).1)
                (ap (λ p. p.group) (sym new) ∙ c.same_group)
              ∙ find_group-insert_same (c_text grp) ll_default s.levels,
        )
      ],
      λ i ps q. get_elem?-append_left s.settings (c.ps ∷ []) i ps q,
    )

call-IsLinked : (s : Groups) (c : Call) → IsLinked s → IsLinked (call s c) × Keeps s (call s c)
unfolding call create_settings test_group_level
call-IsLinked s (create level none loc sig) h = same_Linked s h
call-IsLinked s (create level (some grp) none sig) h = same_Linked s h
call-IsLinked s (create level (some grp) (some loc) none) h = same_Linked s h
call-IsLinked s (create level (some grp) (some loc) (some sig)) h =
    created_Linked level grp loc sig s h
call-IsLinked s (set lev group) h = (
  λ i ps q. find_group-set_some lev group ps.group (h i ps q).0 s.levels (h i ps q).1,
  λ i ps q. q,
)
call-IsLinked s (test lev group) h = (
  λ i ps q. (
    (h i ps q).0,
    find_group-insert group ps.group ll_default (h i ps q).0 s.levels (h i ps q).1,
  ),
  λ i ps q. q,
)

-- From a state in which the group of every settings object has its entry, every sequence of calls
-- that make settings, with null pointers or not, set a level or test one leads to such a state, and
-- keeps every settings object at its place.
pub calls-IsLinked :
    (cs : List Call) (s : Groups) → IsLinked s → IsLinked (calls s cs) × Keeps s (calls s cs)
unfolding calls
calls-IsLinked [] s h = same_Linked s h
calls-IsLinked (c ∷ cs) s h =
    let first = call-IsLinked s c h in
    let rest = calls-IsLinked cs (call s c) first.0 in
    (rest.0, λ i ps q. rest.1 i ps (first.1 i ps q))

-- After `setGroupLevel`, all settings of the group, whenever they were made, are loggable exactly
-- from that level on, and `testGroupLevel` says the same; those of other groups are as loggable as before.
pub set_group_level_lem :
    (lev : Level) (group : List ℕ) (levels : LevelMap) (ps : LogSettings)
    → let levels' = set_group_level lev group levels in
      (ps.group ≡ group
        → (is_loggable ps levels' ≡ some (leb (rank lev) (rank ps.local_level)))
          × ((test_group_level ps.local_level group levels').0
              ≡ leb (rank lev) (rank ps.local_level)))
      × (group ≢ ps.group → is_loggable ps levels' ≡ is_loggable ps levels)
unfolding is_loggable test_group_level
set_group_level_lem lev group levels ps =
    let levels' = set_group_level lev group levels in
    (
      λ same. (
        rw (same, find_group-set_same lev group levels) refl,
        ap (λ gl. leb (rank gl) (rank ps.local_level))
            (some-injective _ lev (
              sym (find_group-insert_same group ll_default levels')
              ∙ find_group-insert group group ll_default lev levels'
                  (find_group-set_same lev group levels))),
      ),
      λ other. rw (find_group-set_other lev group ps.group levels other) refl,
    )
