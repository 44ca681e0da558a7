-- ===== src/Permissions/Groups.antt =====
-- normalizeIdentity and the membership of groups.
use storhub.Prelude.{
  ℕ, ◌||◌, List, [], ◌∷◌, ◌++◌, ◌==◌, ◌≡◌, refl, ap, ◌∙◌, arith, Bool-cases, inl, inr,
}
use storhub.Permissions.{
  NodeAttrs, check_access, check_normalized, permission_bits, Identity, elem, insert_gid, sort_gids,
  compact_after, compact, unique_gids, with_gid, identity_groups_normalized, normalize_identity,
  identity_in_group,
}

elem-append : (g : ℕ) (hs ks : List ℕ) → elem g (hs ++ ks) ≡ (elem g hs || elem g ks)
unfolding elem
elem-append g [] ks = refl
elem-append g (h ∷ hs) ks = ground (arith, elem-append g hs ks)

elem-insert_gid : (g x : ℕ) (hs : List ℕ) → elem g (insert_gid x hs) ≡ (x == g || elem g hs)
unfolding elem insert_gid
elem-insert_gid g x [] = refl
elem-insert_gid g x (h ∷ hs) = ground (arith, elem-insert_gid g x hs)

elem-sort_gids : (g : ℕ) (hs : List ℕ) → elem g (sort_gids hs) ≡ elem g hs
unfolding elem sort_gids
elem-sort_gids g [] = refl
elem-sort_gids g (h ∷ hs) =
    elem-insert_gid g h (sort_gids hs) ∙ ap (λ b. h == g || b) (elem-sort_gids g hs)

elem-compact_after :
    (g h : ℕ) (hs : List ℕ) → (h == g || elem g (compact_after h hs)) ≡ (h == g || elem g hs)
unfolding elem compact_after
elem-compact_after g h [] = refl
elem-compact_after g h (k ∷ ks) =
    ground (arith, elem-compact_after g h ks, elem-compact_after g k ks)

elem-compact : (g : ℕ) (hs : List ℕ) → elem g (compact hs) ≡ elem g hs
unfolding elem compact
elem-compact g [] = refl
elem-compact g (h ∷ hs) = elem-compact_after g h hs

elem-unique_gids : (g : ℕ) (hs : List ℕ) → elem g (unique_gids hs) ≡ elem g hs
unfolding unique_gids
elem-unique_gids g hs = elem-compact g (sort_gids hs) ∙ elem-sort_gids g hs

elem-with_gid :
    (g gid : ℕ) (hs : List ℕ) → (gid == g || elem g (with_gid gid hs)) ≡ (gid == g || elem g hs)
unfolding with_gid elem
elem-with_gid g gid hs = elim (Bool-cases (gid == 0)) [
  | inl z ↦ rw z refl
  | inr n ↦ rw (n, elem-unique_gids g (hs ++ gid ∷ []), elem-append g hs (gid ∷ [])) (ground arith)
]

-- Membership of a group is the same before and after normalizeIdentity.
pub identity_in_group-normalize :
    (id : Identity) (g : ℕ) → identity_in_group (normalize_identity id) g ≡ identity_in_group id g
unfolding identity_in_group normalize_identity
identity_in_group-normalize id g = elim (Bool-cases (identity_groups_normalized id)) [
  | inl n ↦ rw n refl
  | inr n ↦
      rw n (elem-with_gid g id.gid (unique_gids id.groups) ∙ rw (elem-unique_gids g id.groups) refl)
]

pub normalize-admin : (id : Identity) → (normalize_identity id).admin ≡ id.admin
unfolding normalize_identity
normalize-admin id = elim (Bool-cases (identity_groups_normalized id)) [
  | inl n ↦ rw n refl
  | inr n ↦ rw n refl
]

pub normalize-uid : (id : Identity) → (normalize_identity id).uid ≡ id.uid
unfolding normalize_identity
normalize-uid id = elim (Bool-cases (identity_groups_normalized id)) [
  | inl n ↦ rw n refl
  | inr n ↦ rw n refl
]

-- checkAccess decides as it would on the identity as given: normalising it changes no verdict.
pub check_access-normalize :
    (id : Identity) (attrs : NodeAttrs) (need : ℕ)
    → check_access id attrs need ≡ check_normalized id attrs need
unfolding check_access check_normalized permission_bits
check_access-normalize id attrs need =
    rw (normalize-admin id, normalize-uid id, identity_in_group-normalize id attrs.gid) refl
