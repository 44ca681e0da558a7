-- ===== src/Permissions/Rights/Laws.antt =====
-- What CanChown, CanSetTimesValues, CheckStickyDelete and TouchDirectory come to.
use Prim.Native.Nat.{bit_and}
use storhub.Prelude.{
  ℕ, ◌+◌, ◌≤◌, Bool, true, false, ◌&&◌, ◌||◌, [], ◌∷◌, Option, none, some, ◌==◌, if◌then◌else◌, ◌≡◌,
  ◌↔◌, ◌⊎◌, refl, arith, Bool-cases, inl, inr,
}
use storhub.Permissions.{
  Identity, NodePath, NodeAttrs, Directory, RepoMetadata, Verdict, allowed, eperm, and_then,
  access_write, identity_in_group, check_access, lookup_node, file_or_directory, directory_attrs,
}
use storhub.Permissions.Groups.{identity_in_group-normalize, normalize-admin, normalize-uid}
use storhub.Permissions.Walk.{and_then-allowed}
use storhub.Permissions.Rights.{
  keep_owner_id, can_chown, can_set_times_values, stamp_allowed, is_nowish, check_sticky_delete,
  sticky_parent, sticky_target, touch_directory, touched, same_path,
}

-- The rule of chown(2): an administrator may do all, an owner may keep the uid and give the file to
-- a group of theirs.
abbrev pub may_chown : Identity → NodeAttrs → ℕ → ℕ → Bool
may_chown id entry uid gid =
    id.admin
    || (id.uid == entry.uid
        && ((uid == keep_owner_id || uid == entry.uid)
            && (gid == keep_owner_id || (gid == entry.gid || identity_in_group id gid))))

-- CanChown allows exactly what the rule of chown(2) allows, and answers EPERM otherwise.
pub can_chown_lem :
    (id : Identity) (entry : NodeAttrs) (uid gid : ℕ)
    → can_chown id entry uid gid ≡ (if may_chown id entry uid gid then allowed else eperm)
unfolding can_chown
can_chown_lem id entry uid gid =
    rw (normalize-admin id, normalize-uid id, identity_in_group-normalize id gid) (ground arith)

-- A timestamp that is left out, or at most two seconds from now.
abbrev pub IsCurrent : ℕ → Option ℕ → Type 0
IsCurrent now none = Unit
IsCurrent now (some stamp) = (stamp ≤ now + 2000000000) × (now ≤ stamp + 2000000000)

stamp_allowed_iff :
    (now : ℕ) (stamp : Option ℕ) → (stamp_allowed now stamp ≡ allowed) ↔ IsCurrent now stamp
unfolding stamp_allowed is_nowish
stamp_allowed_iff now none = (λ h. tt, λ h. refl)
stamp_allowed_iff now (some stamp) =
    (λ h. (ground (arith, h), ground (arith, h)), λ h. ground (arith, h.0, h.1))

can_set_times_split :
    (own : Bool) (write a m : Verdict)
    → ((if own then allowed else and_then write (and_then a m)) ≡ allowed)
      ↔ ((own ≡ true) ⊎ ((write ≡ allowed) × (a ≡ allowed) × (m ≡ allowed)))
can_set_times_split true write a m = (λ h. inl refl, λ h. refl)
can_set_times_split false write a m = (
  λ h.
      let first = and_then-allowed write (and_then a m) h in
      let second = and_then-allowed a m first.1 in inr (first.0, second.0, second.1),
  λ h. elim h [ inl absent ↦ ground (arith, absent) | inr r ↦ rw (r.0, r.1, r.2) refl ],
)

touched-attrs :
    (now : ℕ) (f : Option NodeAttrs) (d : Option Directory)
    → file_or_directory f (touched now d) ≡ file_or_directory f d
unfolding touched file_or_directory directory_attrs
touched-attrs now (some f) d = refl
touched-attrs now none none = refl
touched-attrs now none (some d) = refl

-- TouchDirectory changes no attribute that a permission check reads.
pub lookup_node-touch_directory :
    (repo : RepoMetadata) (dir path : NodePath) (now : ℕ)
    → lookup_node (touch_directory repo dir now) path ≡ lookup_node repo path
unfolding lookup_node touch_directory touched file_or_directory directory_attrs
lookup_node-touch_directory repo [] [] now = refl
lookup_node-touch_directory repo [] (p ∷ ps) now = refl
lookup_node-touch_directory repo (d ∷ ds) [] now = refl
lookup_node-touch_directory repo (d ∷ ds) (p ∷ ps) now =
    elim (Bool-cases (same_path (p ∷ ps) (d ∷ ds))) [
      | inl e ↦ rw e (touched-attrs now (repo.files (p ∷ ps)) (repo.directories (p ∷ ps)))
      | inr e ↦ rw e refl
    ]

-- CanSetTimesValues allows a change exactly for an administrator, for the owner, and for a caller with
-- write access whose timestamps are left out or at most two seconds from now.
pub can_set_times_values_iff :
    (id : Identity) (entry : NodeAttrs) (atime mtime : Option ℕ) (now : ℕ)
    → (can_set_times_values id entry atime mtime now ≡ allowed) ↔ (
        (id.admin || id.uid == entry.uid ≡ true)
        ⊎ ((check_access id entry access_write ≡ allowed)
            × IsCurrent now atime
            × IsCurrent now mtime))
unfolding can_set_times_values
can_set_times_values_iff id entry atime mtime now =
    let split =
      can_set_times_split (id.admin || id.uid == entry.uid) (check_access id entry access_write)
        (stamp_allowed now atime) (stamp_allowed now mtime) in
    let a = stamp_allowed_iff now atime in
    let m = stamp_allowed_iff now mtime in
    (
      λ h. elim (split.0 h) [ inl own ↦ inl own | inr r ↦ inr (r.0, a.0 r.1, m.0 r.2) ],
      λ h. split.1 (elim h [ inl own ↦ inl own | inr r ↦ inr (r.0, a.1 r.1, m.1 r.2) ]),
    )

-- Where parent and target exist, CheckStickyDelete allows exactly an administrator, the owner of the
-- directory and the owner of the target under a sticky directory, and everyone elsewhere, and answers
-- EPERM otherwise.
pub check_sticky_delete_lem :
    (id : Identity) (repo : RepoMetadata) (parent target : NodePath) (p t : NodeAttrs)
    → lookup_node repo parent ≡ some p
    → lookup_node repo target ≡ some t
    → check_sticky_delete id repo parent target ≡ (
        if bit_and p.mode 512 == 0 || (id.admin || (id.uid == p.uid || id.uid == t.uid))
        then allowed
        else eperm)
unfolding check_sticky_delete sticky_parent sticky_target
check_sticky_delete_lem id repo parent target p t hp ht = rw (hp, ht) (ground arith)
