-- ===== src/Path/Remap.antt =====
-- RemapPath and IsParentOrSame of internal/fs/path.go.
use storhub.Prelude.{
  ℕ, Bool, true, false, ◌||◌, [], ◌∷◌, ◌++◌, ◌≡◌, refl, ap, ◌∙◌, Bool-cases, inl, inr, ◌⊎◌, ==_refl,
  append_assoc, length, drop,
}
use storhub.Path.{Text, slash, same_text, has_prefix, trim_prefix}
use storhub.Path.Relatives.{remap_path}
use storhub.Path.Keys.{same_text→≡, has_prefix→≡}

pub same_text_refl : (t : Text) → same_text t t ≡ true
unfolding same_text
same_text_refl [] = refl
same_text_refl (c ∷ t) = rw (==_refl c, same_text_refl t) refl

same_text-append : (t : Text) (c : ℕ) (rest : Text) → same_text (t ++ (c ∷ rest)) t ≡ false
unfolding same_text
same_text-append [] c rest = refl
same_text-append (d ∷ t) c rest = rw (==_refl d, same_text-append t c rest) refl

has_prefix-append : (p rest : Text) (c : ℕ) → has_prefix (p ++ (c ∷ [])) (p ++ (c ∷ rest)) ≡ true
unfolding has_prefix
has_prefix-append [] rest c = rw (==_refl c) refl
has_prefix-append (d ∷ p) rest c = rw (==_refl d, has_prefix-append p rest c) refl

has_prefix_self : (p rest : Text) → has_prefix p (p ++ rest) ≡ true
unfolding has_prefix
has_prefix_self [] rest = refl
has_prefix_self (d ∷ p) rest = rw (==_refl d, has_prefix_self p rest) refl

drop-append : (p rest : Text) → drop (length p) (p ++ rest) ≡ rest
drop-append [] rest = refl
drop-append (c ∷ p) rest = drop-append p rest

-- A path under the base is moved under the other.
remap_path-under :
    (old_base new_base rest : Text)
    → remap_path old_base new_base (old_base ++ (slash ∷ rest)) ≡ new_base ++ (slash ∷ rest)
unfolding remap_path trim_prefix
remap_path-under old_base new_base rest =
    rw
      (
        same_text-append old_base slash rest,
        has_prefix-append old_base rest slash,
        has_prefix_self old_base (slash ∷ rest),
        drop-append old_base (slash ∷ rest),
      )
      refl

remap_path-base : (old_base new_base : Text) → remap_path old_base new_base old_base ≡ new_base
unfolding remap_path
remap_path-base old_base new_base = rw (same_text_refl old_base) refl

-- The target is the base or lies under it.
abbrev pub under : Text → Text → Bool
under base target = same_text target base || has_prefix (base ++ (slash ∷ [])) target

pub under-cases :
    (base target : Text)
    → under base target ≡ true
    → (target ≡ base) ⊎ ((rest : Text) × (target ≡ base ++ (slash ∷ rest)))
under-cases base target h = elim (Bool-cases (same_text target base)) [
  | inl e ↦ inl (same_text→≡ target base e)
  | inr e ↦
      let (rest, eq) = has_prefix→≡ (base ++ (slash ∷ [])) target (rw e at h) in
      inr (rest, eq ∙ append_assoc base (slash ∷ []) rest)
]

pub under-append : (base rest : Text) → under base (base ++ (slash ∷ rest)) ≡ true
under-append base rest = rw (same_text-append base slash rest) (has_prefix-append base rest slash)

pub under_self : (base : Text) → under base base ≡ true
under_self base =
    ap (λ (b : Bool). b || has_prefix (base ++ (slash ∷ [])) base) (same_text_refl base)

-- A path that is the base or lies under it is moved to a path that is the other base or lies under
-- it, and moving that one back gives the path.
pub remap_path-remap_path :
    (old_base new_base target : Text)
    → under old_base target ≡ true
    → (under new_base (remap_path old_base new_base target) ≡ true)
      × (remap_path new_base old_base (remap_path old_base new_base target) ≡ target)
remap_path-remap_path old_base new_base target h = elim (under-cases old_base target h) [
  | inl e ↦
      rw (e, remap_path-base old_base new_base)
        (under_self new_base, remap_path-base new_base old_base)
  | inr (rest, e) ↦
      rw (e, remap_path-under old_base new_base rest)
        (under-append new_base rest, remap_path-under new_base old_base rest)
]
