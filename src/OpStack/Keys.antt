-- ===== src/OpStack/Keys.antt =====
-- The keys of byPath and the test on them.
use Prim.Native.Nat.{Ordering}
use Prim.Native.String.{compare}
use text.Mathlib.TextEquality.{path_by_compare}
use text.Mathlib.TextPositions.{compare_refl}
use storhub.Prelude.{true, false, ◌≡◌, refl, ap, arith, String}
use storhub.OpStack.{PathKey, file_key, dir_key, release_key, text_eq, key_eq}

is_eq : (o : Ordering) → elim o [ Ordering.eq ↦ true | _ ↦ false ] ≡ true → o ≡ Ordering.eq
is_eq Ordering.eq h = refl
is_eq Ordering.lt h = ground (arith, h)
is_eq Ordering.gt h = ground (arith, h)

text_eq→≡ : (a b : String) → text_eq a b ≡ true → a ≡ b
unfolding text_eq
text_eq→≡ a b h = path_by_compare a b (is_eq (compare a b) h)

pub text_eq_refl : (a : String) → text_eq a a ≡ true
unfolding text_eq
text_eq_refl a = rw (text_eq, compare_refl a) refl

pub key_eq→≡ : (k l : PathKey) → key_eq k l ≡ true → k ≡ l
unfolding key_eq
key_eq→≡ (file_key a) (file_key b) h = ap file_key (text_eq→≡ a b h)
key_eq→≡ (dir_key a) (dir_key b) h = ap dir_key (text_eq→≡ a b h)
key_eq→≡ (release_key a) (release_key b) h = ap release_key (text_eq→≡ a b h)
key_eq→≡ (file_key a) (dir_key b) h = ground (arith, h)
key_eq→≡ (file_key a) (release_key b) h = ground (arith, h)
key_eq→≡ (dir_key a) (file_key b) h = ground (arith, h)
key_eq→≡ (dir_key a) (release_key b) h = ground (arith, h)
key_eq→≡ (release_key a) (file_key b) h = ground (arith, h)
key_eq→≡ (release_key a) (dir_key b) h = ground (arith, h)

pub key_eq_refl : (k : PathKey) → key_eq k k ≡ true
unfolding key_eq
key_eq_refl (file_key a) = text_eq_refl a
key_eq_refl (dir_key a) = text_eq_refl a
key_eq_refl (release_key a) = text_eq_refl a
