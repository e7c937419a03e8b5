-- ===== src/Msig/Levels.antt =====
-- Permission levels counted in the lists of a proposal.
use ux_contracts.Prelude.{
  ℕ, ◌≡◌, refl, Bool, true, ◌+◌, List, [], ◌∷◌, ◌++◌, arith, if◌then◌else◌, ap,
}
use ux_contracts.Msig.{
  PermissionLevel, level_eq, Approval, has_approval, erase_approval, has_level, erase_level,
}

abbrev pub levels : List Approval → List PermissionLevel
levels [] = []
levels (a ∷ rest) = a.level ∷ levels rest

-- How often a level stands in a list.
abbrev pub count : PermissionLevel → List PermissionLevel → ℕ
count l [] = 0
count l (x ∷ xs) = (if level_eq x l then 1 else 0) + count l xs

abbrev pub one_if : Bool → ℕ
one_if b = if b then 1 else 0

pub count-erase_level :
    (level l : PermissionLevel) (ls : List PermissionLevel)
    → has_level level ls ≡ true
    → count l (erase_level level ls) + one_if (level_eq level l) ≡ count l ls
count-erase_level level l [] h = cc
count-erase_level level l (x ∷ xs) h = ground (arith, count-erase_level level l xs)

pub levels-erase_approval :
    (level : PermissionLevel) (given : List Approval)
    → levels (erase_approval level given) ≡ erase_level level (levels given)
levels-erase_approval level [] = refl
levels-erase_approval level (a ∷ rest) = ground (arith, levels-erase_approval level rest)

pub has_level-levels :
    (level : PermissionLevel) (given : List Approval)
    → has_level level (levels given) ≡ has_approval level given
has_level-levels level [] = refl
has_level-levels level (a ∷ rest) = ground (arith, has_level-levels level rest)

pub levels-append : (given bs : List Approval) → levels (given ++ bs) ≡ levels given ++ levels bs
levels-append [] bs = refl
levels-append (a ∷ rest) bs = ap (λ t. a.level ∷ t) (levels-append rest bs)

pub count-append :
    (l : PermissionLevel) (xs ys : List PermissionLevel)
    → count l (xs ++ ys) ≡ count l xs + count l ys
count-append l [] ys = omega arith
count-append l (x ∷ xs) ys = ground (arith, count-append l xs ys)
