-- ===== src/Permissions.antt =====
-- Permission checks: internal/fs/permissions.go. A path is the list of its components from the root,
-- each a name that compares as a number; a context is an optional identity. The checks that take a
-- user path resolve it first (internal/fs/symlink.go) and are not part of the model.
pub mod Groups
pub mod Walk
pub mod Rights
pub mod Tests
use Prim.Native.Nat.{bit_and, bit_or}
use storhub.Prelude.{
  ℕ, zero, suc, ◌+◌, ◌-◌, ◌/◌, ◌≤◌, ◌<◌, Bool, true, false, ◌&&◌, ◌||◌, not, List, [], ◌∷◌, ◌++◌,
  Option, none, some, ltb, leb, ◌==◌, if◌then◌else◌,
}

pub record Identity : Type 0 where
  pub uid : ℕ
  pub gid : ℕ
  pub pid : ℕ
  pub admin : Bool
  pub umask : ℕ
  pub groups : List ℕ

abbrev pub NodePath : Type 0
NodePath = List ℕ

-- nodeAttrs, and the fields of EntryInfo that the checks read.
pub record NodeAttrs : Type 0 where
  pub mode : ℕ
  pub uid : ℕ
  pub gid : ℕ
  pub is_dir : Bool

pub record Directory : Type 0 where
  pub attrs : NodeAttrs
  pub modified_at : ℕ
  pub changed_at : ℕ

-- RepoMetadata: the root and the two maps.
pub record RepoMetadata : Type 0 where
  pub root : Directory
  pub files : NodePath → Option NodeAttrs
  pub directories : NodePath → Option Directory

-- The errors of the checks, and `allowed` for nil.
pub data Verdict : Type 0 where
  allowed eacces eperm not_found not_directory : Verdict

abbrev pub and_then : Verdict → Verdict → Verdict
and_then allowed next = next
and_then v next = v

abbrev pub access_write : ℕ
access_write = 2

abbrev pub access_read : ℕ
access_read = 4

abbrev pub access_exec : ℕ
access_exec = 1

unfoldable pub elem : ℕ → List ℕ → Bool
elem g [] = false
elem g (h ∷ hs) = h == g || elem g hs

insert_gid : ℕ → List ℕ → List ℕ
insert_gid g [] = g ∷ []
insert_gid g (h ∷ hs) = if ltb h g then h ∷ insert_gid g hs else g ∷ h ∷ hs

sort_gids : List ℕ → List ℕ
unfolding insert_gid
sort_gids [] = []
sort_gids (g ∷ gs) = insert_gid g (sort_gids gs)

-- slices.Compact on the list behind its first element.
compact_after : ℕ → List ℕ → List ℕ
compact_after g [] = []
compact_after g (h ∷ hs) = if h == g then compact_after g hs else h ∷ compact_after h hs

compact : List ℕ → List ℕ
unfolding compact_after
compact [] = []
compact (g ∷ gs) = g ∷ compact_after g gs

-- uniqueGIDs
pub unique_gids : List ℕ → List ℕ
unfolding sort_gids compact
unique_gids groups = compact (sort_gids groups)

-- The order and the duplicates that identityGroupsNormalized looks for.
strictly_sorted : List ℕ → Bool
strictly_sorted [] = true
strictly_sorted (g ∷ []) = true
strictly_sorted (g ∷ h ∷ hs) = if ltb g h then strictly_sorted (h ∷ hs) else false

-- identityGroupsNormalized
pub identity_groups_normalized : Identity → Bool
unfolding strictly_sorted elem
identity_groups_normalized id =
    strictly_sorted id.groups && (if not (id.gid == 0) then elem id.gid id.groups else true)

with_gid : ℕ → List ℕ → List ℕ
with_gid gid groups = if gid == 0 then groups else unique_gids (groups ++ gid ∷ [])

-- normalizeIdentity
pub normalize_identity : Identity → Identity
unfolding identity_groups_normalized with_gid
normalize_identity id =
    if identity_groups_normalized id
    then id
    else record id { groups = with_gid id.gid (unique_gids id.groups) }

-- WithIdentity
pub with_identity : Identity → Option Identity
unfolding with_gid
with_identity id = some (record id { groups = with_gid id.gid (unique_gids id.groups) })

-- IdentityFromContext; the process's own ids are given.
pub identity_from_context : ℕ → ℕ → Option Identity → Identity
unfolding normalize_identity
identity_from_context process_uid process_gid (some id) = normalize_identity id
identity_from_context process_uid process_gid none = record {
  uid = process_uid;
  gid = process_gid;
  pid = 0;
  admin = false;
  umask = 0;
  groups = [];
}

-- identityInGroup
pub identity_in_group : Identity → ℕ → Bool
unfolding elem
identity_in_group id gid = id.gid == gid || elem gid id.groups

-- permissionBits
pub permission_bits : Identity → NodeAttrs → ℕ
unfolding identity_in_group
permission_bits id attrs =
    let bits = bit_and attrs.mode 511 in
    if id.uid == attrs.uid
    then bit_and (bits / 64) 7
    else if identity_in_group id attrs.gid
    then bit_and (bits / 8) 7
    else bit_and bits 7

-- The body of checkAccess after it normalised the identity.
pub check_normalized : Identity → NodeAttrs → ℕ → Verdict
unfolding permission_bits
check_normalized id attrs need =
    if id.admin
    then (if not (bit_and need access_exec == 0) && not attrs.is_dir && bit_and attrs.mode 73 == 0
        then eacces
        else allowed)
    else if bit_and (permission_bits id attrs) need == need
    then allowed
    else eacces

-- checkAccess
pub check_access : Identity → NodeAttrs → ℕ → Verdict
unfolding check_normalized
check_access id attrs need = check_normalized (normalize_identity id) attrs need

directory_attrs : Option Directory → Option NodeAttrs
directory_attrs none = none
directory_attrs (some d) = some d.attrs

file_or_directory : Option NodeAttrs → Option Directory → Option NodeAttrs
unfolding directory_attrs
file_or_directory (some f) d = some f
file_or_directory none d = directory_attrs d

-- lookupNode
pub lookup_node : RepoMetadata → NodePath → Option NodeAttrs
unfolding file_or_directory
lookup_node repo [] = some repo.root.attrs
lookup_node repo (p ∷ ps) = file_or_directory (repo.files (p ∷ ps)) (repo.directories (p ∷ ps))

-- ParentPath
pub parent_path : NodePath → NodePath
parent_path [] = []
parent_path (p ∷ []) = []
parent_path (p ∷ q ∷ ps) = p ∷ parent_path (q ∷ ps)

pub node_access : Identity → ℕ → Option NodeAttrs → Verdict
unfolding check_access
node_access id need none = not_found
node_access id need (some attrs) = check_access id attrs need

directory_access : Identity → ℕ → Option NodeAttrs → Verdict
unfolding check_access
directory_access id need none = not_found
directory_access id need (some attrs) =
    if attrs.is_dir then check_access id attrs need else not_directory

-- The check of one directory of a walk, without the set of the checked ones.
pub dir_exec : Identity → RepoMetadata → NodePath → Verdict
unfolding directory_access
dir_exec id repo dir = directory_access id access_exec (lookup_node repo dir)

pub path_eq : NodePath → NodePath → Bool
path_eq [] [] = true
path_eq (a ∷ as_) (b ∷ bs) = a == b && path_eq as_ bs
path_eq _ _ = false

pub is_checked : NodePath → List NodePath → Bool
unfolding path_eq
is_checked dir [] = false
is_checked dir (c ∷ cs) = path_eq c dir || is_checked dir cs

-- checkDirExec
pub check_dir_exec : Identity → RepoMetadata → List NodePath → NodePath → Verdict × List NodePath
unfolding is_checked dir_exec
check_dir_exec id repo checked dir =
    if is_checked dir checked then (allowed, checked) else (dir_exec id repo dir, dir ∷ checked)

pub walk_on : Verdict × List NodePath → (List NodePath → Verdict) → Verdict
walk_on (allowed, checked) rest = rest checked
walk_on (v, checked) rest = v

pub walk_loop : Identity → RepoMetadata → List NodePath → List NodePath → Verdict
unfolding check_dir_exec walk_on
walk_loop id repo [] checked = allowed
walk_loop id repo (dir ∷ dirs) checked =
    walk_on (check_dir_exec id repo checked dir) (walk_loop id repo dirs)

-- CheckWalkResolved
pub check_walk_resolved : Identity → RepoMetadata → List NodePath → Verdict
unfolding walk_loop
check_walk_resolved id repo traversed = walk_loop id repo traversed []

-- checkPathAccessResolved
pub check_path_access_resolved : Identity → RepoMetadata → NodePath → List NodePath → ℕ → Verdict
unfolding check_walk_resolved node_access
check_path_access_resolved id repo path traversed need =
    and_then (check_walk_resolved id repo traversed) (node_access id need (lookup_node repo path))

-- CheckListDirAccessResolved
pub check_list_dir_access_resolved : Identity → RepoMetadata → NodePath → List NodePath → Verdict
unfolding check_walk_resolved directory_access
check_list_dir_access_resolved id repo dir traversed =
    and_then (check_walk_resolved id repo traversed)
      (directory_access id (bit_or access_read access_exec) (lookup_node repo dir))

-- CheckParentWriteResolved
pub check_parent_write_resolved : Identity → RepoMetadata → NodePath → List NodePath → Verdict
unfolding check_walk_resolved directory_access
check_parent_write_resolved id repo target traversed =
    and_then (check_walk_resolved id repo traversed) (
      directory_access id (bit_or access_write access_exec) (lookup_node repo (parent_path target)))
