-- ===== src/Permissions/Rights.antt =====
-- Who may change the attributes of a node, and what a new node gets: CanChmod, CanChown, CanSetTimes,
-- CheckStickyDelete, ApplyParentInheritance and the functions beside them. Each takes the identity
-- that IdentityFromContext answers. `mode &^ bits` is written as the difference to the common bits.
pub mod Laws
use Prim.Native.Nat.{bit_and, bit_or}
use storhub.Prelude.{
  ℕ, ◌+◌, ◌-◌, ◌≤◌, ◌<◌, Bool, true, false, ◌&&◌, ◌||◌, not, List, [], ◌∷◌, Option, none, some, ltb,
  leb, ◌==◌, if◌then◌else◌,
}
use storhub.Permissions.{
  Identity, NodePath, NodeAttrs, Directory, RepoMetadata, Verdict, allowed, eacces, eperm,
  not_found, and_then, access_write, identity_in_group, normalize_identity, identity_from_context,
  check_access, lookup_node, parent_path,
}

abbrev pub keep_owner_id : ℕ
keep_owner_id = 4294967295

and_not : ℕ → ℕ → ℕ
and_not mode bits = mode - bit_and mode bits

-- OwnerIDsForCreate
pub owner_ids_for_create : Option Identity → ℕ → ℕ → ℕ × ℕ
unfolding normalize_identity
owner_ids_for_create none fallback_uid fallback_gid = (fallback_uid, fallback_gid)
owner_ids_for_create (some id) fallback_uid fallback_gid =
    ((normalize_identity id).uid, (normalize_identity id).gid)

create_mode : Option ℕ → ℕ → ℕ
create_mode none fallback = bit_and fallback 4095
create_mode (some requested) fallback = bit_and requested 4095

-- ApplyCreateMode, on the mode that WithCreateMode put into the context.
pub apply_create_mode : Identity → Option ℕ → ℕ → ℕ
unfolding create_mode and_not
apply_create_mode id requested fallback =
    and_not (create_mode requested fallback) (bit_and id.umask 4095)

-- CanChmod
pub can_chmod : Identity → NodeAttrs → Verdict
can_chmod id entry = if id.admin || id.uid == entry.uid then allowed else eperm

-- SanitizeChmodMode
pub sanitize_chmod_mode : Identity → NodeAttrs → ℕ → ℕ
unfolding and_not identity_in_group
sanitize_chmod_mode id entry mode =
    let given = bit_and mode 4095 in
    if id.admin
    then given
    else if not (bit_and given 1024 == 0) && not (identity_in_group id entry.gid)
    then and_not given 1024
    else given

-- SanitizeWrittenFileModeForContext
pub sanitize_written_file_mode : Identity → ℕ → ℕ
unfolding and_not
sanitize_written_file_mode id mode = if id.admin then mode else and_not mode 3072

-- CanChown
pub can_chown : Identity → NodeAttrs → ℕ → ℕ → Verdict
unfolding identity_in_group normalize_identity
can_chown caller entry uid gid =
    let id = normalize_identity caller in
    if id.admin
    then allowed
    else if not (id.uid == entry.uid)
    then eperm
    else if not (uid == keep_owner_id) && not (uid == entry.uid)
    then eperm
    else if not (gid == keep_owner_id) && not (gid == entry.gid) && not (identity_in_group id gid)
    then eperm
    else allowed

-- CanSetTimes
pub can_set_times : Identity → NodeAttrs → Verdict
unfolding check_access
can_set_times id entry =
    if id.admin || id.uid == entry.uid then allowed else check_access id entry access_write

-- isNowish: the distance of two times, in nanoseconds.
is_nowish : ℕ → ℕ → Bool
is_nowish requested now = leb ((requested - now) + (now - requested)) 2000000000

stamp_allowed : ℕ → Option ℕ → Verdict
unfolding is_nowish
stamp_allowed now none = allowed
stamp_allowed now (some stamp) = if is_nowish stamp now then allowed else eperm

-- CanSetTimesValues; none is UTIME_OMIT.
pub can_set_times_values : Identity → NodeAttrs → Option ℕ → Option ℕ → ℕ → Verdict
unfolding stamp_allowed check_access
can_set_times_values id entry atime mtime now =
    if id.admin || id.uid == entry.uid
    then allowed
    else and_then (check_access id entry access_write)
        (and_then (stamp_allowed now atime) (stamp_allowed now mtime))

inherited : Option NodeAttrs → Bool → ℕ → ℕ → ℕ → ℕ × (ℕ × ℕ)
inherited none is_dir mode uid gid = (mode, (uid, gid))
inherited (some parent) is_dir mode uid gid =
    if not parent.is_dir || bit_and parent.mode 1024 == 0
    then (mode, (uid, gid))
    else (if is_dir then bit_or mode 1024 else mode, (uid, parent.gid))

-- ApplyParentInheritance
pub apply_parent_inheritance : RepoMetadata → NodePath → Bool → ℕ → ℕ → ℕ → ℕ × (ℕ × ℕ)
unfolding inherited lookup_node parent_path
apply_parent_inheritance repo target is_dir mode uid gid =
    inherited (lookup_node repo (parent_path target)) is_dir mode uid gid

sticky_target : Identity → Option NodeAttrs → Verdict
sticky_target id none = not_found
sticky_target id (some target) = if id.uid == target.uid then allowed else eperm

sticky_parent : Identity → Option NodeAttrs → Option NodeAttrs → Verdict
unfolding sticky_target
sticky_parent id none target = not_found
sticky_parent id (some parent) target =
    if bit_and parent.mode 512 == 0
    then allowed
    else if id.admin || id.uid == parent.uid
    then allowed
    else sticky_target id target

-- CheckStickyDelete
pub check_sticky_delete : Identity → RepoMetadata → NodePath → NodePath → Verdict
unfolding sticky_parent lookup_node
check_sticky_delete id repo parent target =
    sticky_parent id (lookup_node repo parent) (lookup_node repo target)

touched : ℕ → Option Directory → Option Directory
touched now none = none
touched now (some d) = some (record d { modified_at = now; changed_at = now })

same_path : NodePath → NodePath → Bool
same_path [] [] = true
same_path (a ∷ as_) (b ∷ bs) = a == b && same_path as_ bs
same_path _ _ = false

-- TouchDirectory
pub touch_directory : RepoMetadata → NodePath → ℕ → RepoMetadata
unfolding touched same_path
touch_directory repo [] now = record repo {
  root = record repo.root { modified_at = now; changed_at = now };
}
touch_directory repo (p ∷ ps) now = record repo {
  directories =
      λ q. if same_path q (p ∷ ps) then touched now (repo.directories q) else repo.directories q;
}

-- TouchParentDirectory
pub touch_parent_directory : RepoMetadata → NodePath → ℕ → RepoMetadata
unfolding touch_directory parent_path
touch_parent_directory repo target now = touch_directory repo (parent_path target) now
