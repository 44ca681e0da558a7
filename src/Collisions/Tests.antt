-- ===== src/Collisions/Tests.antt =====
-- A tree of two directories, one of which is moved over the other.
use storhub.Prelude.{true, false, List, [], ◌∷◌, ◌||◌, ◌==◌, ◌≡◌, refl}
use storhub.Path.{Text}
use storhub.Collisions.{
  CollisionIndex, new_collision_index, move_subtree, taken_by_another_node,
  file_collides_with_live_dir, unless_in,
}
use storhub.Collisions.Reached.{built, moved, scan, taken_by_another_node-scan}

abbrev a : Text
a = 97 ∷ []

abbrev b : Text
b = 98 ∷ []

abbrev both : List Text
both = a ∷ b ∷ []

abbrev moved_over : CollisionIndex
moved_over = move_subtree [] both (new_collision_index 1 [] ((a, 5) ∷ (b, 6) ∷ [])) a b

-- The inode of the overwritten directory is free.
six_is_free : taken_by_another_node [] both moved_over 6 [] [] ≡ false
unfolding taken_by_another_node move_subtree new_collision_index
six_is_free = refl

five_is_taken : taken_by_another_node [] both moved_over 5 [] [] ≡ true
unfolding taken_by_another_node move_subtree new_collision_index unless_in
five_is_taken = refl

taken_by_another_node-scan_example :
    (taken_by_another_node [] both moved_over 5 [] [] ≡ (
      5 == moved_over.root_inode
      || scan moved_over.dirs 5 (unless_in [] []) both
      || scan moved_over.files 5 (unless_in [] []) []))
    × (file_collides_with_live_dir both moved_over 5 [] a
        ≡ (5 == moved_over.root_inode || scan moved_over.dirs 5 (unless_in (a ∷ []) []) both))
taken_by_another_node-scan_example =
    taken_by_another_node-scan moved_over [] both 5 [] [] a
      (moved [] both a b (built 1 [] ((a, 5) ∷ (b, 6) ∷ [])))
