-- ===== src/Logger/Groups/Entries.antt =====
-- What is found in the map of the levels of code/Logger.cpp after an entry is set or inserted.
use mlnotes.Base.{
  ℕ, ◌≡◌, ◌≢◌, inl, inr, refl, Bool, true, false, Bool-cases, some, List, [], ◌∷◌, arith,
  if◌then◌else◌, ap, sym, subst, ◌∙◌,
}
use mlnotes.Format.{same_bytes}
use mlnotes.Format.Logic.{same_bytes_iff}
use mlnotes.Logger.Levels.{Level}
use mlnotes.Logger.Groups.{LevelMap, find_group, insert, set_group_level}

same_bytes_refl : (g : List ℕ) → same_bytes g g ≡ true
same_bytes_refl g = (same_bytes_iff g g).1 refl

same_bytes-differ : (g other : List ℕ) → g ≢ other → same_bytes g other ≡ false
same_bytes-differ g other d = elim (Bool-cases (same_bytes g other)) [
  | inl e ↦ elim (d ((same_bytes_iff g other).0 e)) [ ]
  | inr e ↦ e
]

pub find_group-set_same :
    (lev : Level) (group : List ℕ) (levels : LevelMap)
    → find_group group (set_group_level lev group levels) ≡ some lev
unfolding find_group set_group_level
find_group-set_same lev group [] = rw (same_bytes_refl group) refl
find_group-set_same lev group ((g, old) ∷ levels) = elim (Bool-cases (same_bytes g group)) [
  | inl e ↦ rw (e, e) refl
  | inr e ↦ rw (e, e) (find_group-set_same lev group levels)
]

pub find_group-set_other :
    (lev : Level) (group other : List ℕ) (levels : LevelMap)
    → group ≢ other
    → find_group other (set_group_level lev group levels) ≡ find_group other levels
unfolding find_group set_group_level
find_group-set_other lev group other [] d = rw (same_bytes-differ group other d) refl
find_group-set_other lev group other ((g, old) ∷ levels) d =
    elim (Bool-cases (same_bytes g group)) [
      | inl e ↦
          let here : same_bytes g other ≡ false =
            same_bytes-differ g other (λ h. d (sym ((same_bytes_iff g group).0 e) ∙ h)) in
          rw (e, here) refl
      | inr e ↦ rw e (
          ap (λ later. if same_bytes g other then some old else later)
            (find_group-set_other lev group other levels d))
    ]

pub find_group-insert :
    (group other : List ℕ) (lev gl : Level) (levels : LevelMap)
    → find_group other levels ≡ some gl
    → find_group other (insert group lev levels).1 ≡ some gl
unfolding find_group insert
find_group-insert group other lev gl [] h = ground arith
find_group-insert group other lev gl ((g, old) ∷ levels) h =
    elim (Bool-cases (same_bytes g group)) [
      | inl e ↦ rw e h
      | inr e ↦ rw e (elim (Bool-cases (same_bytes g other)) [
        | inl here ↦ rw here (rw here at h)
        | inr there ↦ rw there (find_group-insert group other lev gl levels (rw there at h))
      ])
    ]

pub find_group-insert_same :
    (group : List ℕ) (lev : Level) (levels : LevelMap)
    → find_group group (insert group lev levels).1 ≡ some (insert group lev levels).0
unfolding find_group insert
find_group-insert_same group lev [] = rw (same_bytes_refl group) refl
find_group-insert_same group lev ((g, old) ∷ levels) = elim (Bool-cases (same_bytes g group)) [
  | inl e ↦ rw (e, e) refl
  | inr e ↦ rw (e, e) (find_group-insert_same group lev levels)
]

differ : {b : Bool} → b ≡ true → b ≡ false → ⊥
differ {b} p q = ground arith

-- An entry that is there is still there after any entry is set.
pub find_group-set_some :
    (lev : Level) (group other : List ℕ) (gl : Level) (levels : LevelMap)
    → find_group other levels ≡ some gl
    → (gl' : Level) × (find_group other (set_group_level lev group levels) ≡ some gl')
find_group-set_some lev group other gl levels h = elim (Bool-cases (same_bytes group other)) [
  | inl e ↦ (
    lev,
    subst (λ g. find_group g (set_group_level lev group levels) ≡ some lev)
        ((same_bytes_iff group other).0 e) (find_group-set_same lev group levels),
  )
  | inr e ↦ (
    gl,
    find_group-set_other lev group other levels (λ q. differ ((same_bytes_iff group other).1 q) e)
        ∙ h,
  )
]
