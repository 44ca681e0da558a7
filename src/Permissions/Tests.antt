-- ===== src/Permissions/Tests.antt =====
-- A small repository: a sticky directory of uid 5 under the root, and a file in it.
use storhub.Prelude.{true, false, ◌||◌, List, [], ◌∷◌, none, some, ◌==◌, if◌then◌else◌, ◌≡◌, refl}
use Prim.Native.Nat.{bit_and}
use storhub.Permissions.{
  Identity, NodePath, NodeAttrs, RepoMetadata, allowed, eperm, access_write, check_access,
  check_normalized, lookup_node, check_walk_resolved,
}
use storhub.Permissions.Groups.{check_access-normalize}
use storhub.Permissions.Walk.{check_each, check_walk_resolved-each}
use storhub.Permissions.Rights.{can_chown, check_sticky_delete, keep_owner_id}
use storhub.Permissions.Rights.Laws.{may_chown, can_chown_lem, check_sticky_delete_lem}

abbrev caller : Identity
caller = record { uid = 7; gid = 3; pid = 1; admin = false; umask = 18; groups = 9 ∷ 4 ∷ 9 ∷ [] }

abbrev open_directory : NodeAttrs
open_directory = record { mode = 1023; uid = 5; gid = 4; is_dir = true }

abbrev own_file : NodeAttrs
own_file = record { mode = 416; uid = 7; gid = 4; is_dir = false }

abbrev repo : RepoMetadata
repo = record {
  root = record { attrs = open_directory; modified_at = 0; changed_at = 0 };
  files = λ p. elim p [ [] ↦ none | q ∷ qs ↦ elim qs [ [] ↦ none | r ∷ rs ↦ some own_file ] ];
  directories = λ p. some record { attrs = open_directory; modified_at = 0; changed_at = 0 };
}

abbrev walked : List NodePath
walked = [] ∷ (1 ∷ []) ∷ [] ∷ []

check_access-normalize_example :
    check_access caller open_directory access_write
    ≡ check_normalized caller open_directory access_write
check_access-normalize_example = check_access-normalize caller open_directory access_write

check_walk_resolved-each_example :
    check_walk_resolved caller repo walked ≡ check_each caller repo walked
check_walk_resolved-each_example = check_walk_resolved-each caller repo walked

can_chown_lem_example :
    can_chown caller own_file keep_owner_id 9
    ≡ (if may_chown caller own_file keep_owner_id 9 then allowed else eperm)
can_chown_lem_example = can_chown_lem caller own_file keep_owner_id 9

check_sticky_delete_lem_example :
    check_sticky_delete caller repo (1 ∷ []) (1 ∷ 2 ∷ [])
    ≡ (if bit_and 1023 512 == 0 || (false || (7 == 5 || 7 == 7)) then allowed else eperm)
unfolding lookup_node
check_sticky_delete_lem_example =
    check_sticky_delete_lem caller repo (1 ∷ []) (1 ∷ 2 ∷ []) open_directory own_file refl refl
