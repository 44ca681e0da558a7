-- ===== src/Path/Tests.antt =====
-- Runs and instances for the paths: internal/fs/path.go and internal/fs/symlink.go.
use storhub.Prelude.{
  true, false, [], ◌∷◌, ◌≡◌, ◌≢◌, refl, Option, none, some, ◌↔◌, arith, if◌then◌else◌,
}
use storhub.Path.{
  Text, key, normalize_path, normalize_stored_path, metadata_stored_path, metadata_key, join, split,
  split_more, same_text, has_prefix, is_space, trim_left, trim, blank, part_of, clean_part,
  clean_parts, dot_dots, or_dot, clean, validate_access_path_shape, cleaned_key, unless,
}
use storhub.Path.Relatives.{remap_path, is_parent_or_same}
use storhub.Path.Clean.{IsName}
use storhub.Path.Keys.{IsKey}
use storhub.Path.Stored.{normalize_path-again}
use storhub.Path.Resolver.{
  RepoMetadata, FileMeta, resolved_to, failed, too_many_links, find_file, has_directory, top_prefix,
  pop, pop_from, pop_name, current_path, link_target, push_name, jump, spliced, finish, turn,
  walk_parts, walk, resolve_path_tracked,
}
use storhub.Path.Physical.{Physical, resolve_path_tracked-Physical}
use storhub.Path.Plain.{LinkFree, where_at, resolve_path_tracked-eq-normalize_path}
use storhub.Path.Remap.{under, remap_path-remap_path}
use storhub.Path.Under.{Begins, is_parent_or_same_iff}

-- a//b/../c and a/c
abbrev messy : Text
messy = 97 ∷ 47 ∷ 47 ∷ 98 ∷ 47 ∷ 46 ∷ 46 ∷ 47 ∷ 99 ∷ []

abbrev tidy : Text
tidy = 97 ∷ 47 ∷ 99 ∷ []

messy_is_tidy : normalize_path messy ≡ key tidy
unfolding normalize_path validate_access_path_shape blank trim is_space trim_left cleaned_key clean
    clean_parts clean_part part_of same_text has_prefix dot_dots or_dot join split split_more
messy_is_tidy = refl

-- A slash and a space: the name that is left is only white space.
slash_space : normalize_path (47 ∷ 32 ∷ []) ≡ key (32 ∷ [])
unfolding normalize_path validate_access_path_shape blank trim is_space trim_left cleaned_key clean
    clean_parts clean_part part_of same_text has_prefix dot_dots or_dot join split split_more
slash_space = refl

normalize_path-again_example :
    IsKey tidy
    × (normalize_stored_path tidy ≡ tidy)
    × (metadata_stored_path tidy ≡ (if blank tidy then [] else tidy))
    × (normalize_path tidy ≡ unless (validate_access_path_shape tidy) (key tidy))
normalize_path-again_example = normalize_path-again messy tidy messy_is_tidy

-- l is a link to a/b, m a link to itself.
links_at : Text → Option FileMeta
unfolding same_text
links_at t =
    if same_text t (108 ∷ [])
    then some record { symlink = 97 ∷ 47 ∷ 98 ∷ [] }
    else if same_text t (109 ∷ [])
    then some record { symlink = 109 ∷ [] }
    else none

abbrev linked_repo : RepoMetadata
linked_repo = record { files = links_at; dirs = λ t. true }

abbrev plain_repo : RepoMetadata
plain_repo = record { files = λ t. none; dirs = λ t. true }

-- The parent of what l leads to is a.
through_link :
    resolve_path_tracked linked_repo (108 ∷ 47 ∷ 46 ∷ 46 ∷ []) true
    ≡ resolved_to (97 ∷ []) ([] ∷ (97 ∷ []) ∷ (97 ∷ 47 ∷ 98 ∷ []) ∷ [])
unfolding links_at resolve_path_tracked walk walk_parts turn finish spliced jump push_name
    link_target current_path pop_name pop_from pop top_prefix has_directory find_file
    metadata_stored_path metadata_key normalize_stored_path normalize_path
    validate_access_path_shape blank trim is_space trim_left cleaned_key clean clean_parts
    clean_part part_of same_text has_prefix dot_dots or_dot join split split_more
through_link = refl

link_loop : resolve_path_tracked linked_repo (109 ∷ []) true ≡ failed too_many_links
unfolding links_at resolve_path_tracked walk walk_parts turn finish spliced jump push_name
    link_target current_path pop_name pop_from pop top_prefix has_directory find_file
    metadata_stored_path metadata_key normalize_stored_path normalize_path
    validate_access_path_shape blank trim is_space trim_left cleaned_key clean clean_parts
    clean_part part_of same_text has_prefix dot_dots or_dot join split split_more
link_loop = refl

resolve_path_tracked-Physical_example :
    Physical linked_repo true (resolve_path_tracked linked_repo (108 ∷ 47 ∷ 46 ∷ 46 ∷ []) true)
resolve_path_tracked-Physical_example =
    resolve_path_tracked-Physical linked_repo (108 ∷ 47 ∷ 46 ∷ 46 ∷ []) true

plain_free : LinkFree plain_repo
unfolding find_file
plain_free path = refl

messy_not_empty : messy ≢ []
messy_not_empty e = ground (arith, e)

resolve_path_tracked-eq-normalize_path_example :
    where_at (resolve_path_tracked plain_repo messy false) ≡ some (normalize_path messy)
resolve_path_tracked-eq-normalize_path_example =
    resolve_path_tracked-eq-normalize_path plain_repo messy false plain_free messy_not_empty

a_c_under_a : under (97 ∷ []) tidy ≡ true
unfolding same_text has_prefix
a_c_under_a = refl

remap_path-remap_path_example :
    (under (120 ∷ []) (remap_path (97 ∷ []) (120 ∷ []) tidy) ≡ true)
    × (remap_path (120 ∷ []) (97 ∷ []) (remap_path (97 ∷ []) (120 ∷ []) tidy) ≡ tidy)
remap_path-remap_path_example = remap_path-remap_path (97 ∷ []) (120 ∷ []) tidy a_c_under_a

a_IsName : IsName (97 ∷ [])
unfolding part_of same_text
a_IsName = (refl, (refl, tt))

c_IsName : IsName (99 ∷ [])
unfolding part_of same_text
c_IsName = (refl, (refl, tt))

is_parent_or_same_iff_example :
    (is_parent_or_same (join ((97 ∷ []) ∷ [])) (join ((97 ∷ []) ∷ (99 ∷ []) ∷ [])) ≡ true)
    ↔ Begins ((97 ∷ []) ∷ []) ((97 ∷ []) ∷ (99 ∷ []) ∷ [])
is_parent_or_same_iff_example =
    is_parent_or_same_iff ((97 ∷ []) ∷ []) ((97 ∷ []) ∷ (99 ∷ []) ∷ []) (a_IsName, tt)
      (a_IsName, (c_IsName, tt))
