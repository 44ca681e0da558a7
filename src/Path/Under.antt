-- ===== src/Path/Under.antt =====
-- IsParentOrSame of internal/fs/path.go.
use storhub.Prelude.{
  true, false, List, [], ◌∷◌, ◌++◌, ◌≡◌, refl, sym, ap, ◌∙◌, All, arith, inl, inr, ◌↔◌,
  if◌then◌else◌, append_assoc, append-nil,
}
use storhub.Path.{Text, slash, is_empty, split, join, same_text, has_prefix, normalize_stored_path}
use storhub.Path.Relatives.{is_parent_or_same}
use storhub.Path.Split.{NoSlash, split-append}
use storhub.Path.Clean.{IsName}
use storhub.Path.Keys.{split_names, All-NoSlash}
use storhub.Path.Remap.{under, under-cases, under-append, under_self}
use storhub.Path.Stored.{key-Fixed, join-is_empty}

pub join-append :
    (part : Text) (parts : List Text) (next : Text) (rest : List Text)
    → join ((part ∷ parts) ++ (next ∷ rest)) ≡ join (part ∷ parts) ++ (slash ∷ join (next ∷ rest))
unfolding join
join-append part [] next rest = refl
join-append part (p ∷ parts) next rest =
    ap (λ (t : Text). part ++ (slash ∷ t)) (join-append p parts next rest)
    ∙ sym (append_assoc part (slash ∷ join (p ∷ parts)) (slash ∷ join (next ∷ rest)))

pub split-join-append :
    (part : Text) (parts : List Text) (rest : Text)
    → All NoSlash (part ∷ parts)
    → split (join (part ∷ parts) ++ (slash ∷ rest)) ≡ (part ∷ parts) ++ split rest
unfolding join
split-join-append part [] rest h = split-append part rest h.0
split-join-append part (p ∷ parts) rest h =
    ap split (append_assoc part (slash ∷ join (p ∷ parts)) (slash ∷ rest))
    ∙ split-append part (join (p ∷ parts) ++ (slash ∷ rest)) h.0
    ∙ ap (λ (ps : List Text). part ∷ ps) (split-join-append p parts rest h.1)

-- The parts of the one key begin with the parts of the other.
abbrev pub Begins : List Text → List Text → Type 0
Begins above below = (rest : List Text) × (below ≡ above ++ rest)

same-Begins :
    (part : Text) (parts : List Text) (next : Text) (rest : List Text)
    → All IsName (part ∷ parts)
    → All IsName (next ∷ rest)
    → join (next ∷ rest) ≡ join (part ∷ parts)
    → Begins (part ∷ parts) (next ∷ rest)
same-Begins part parts next rest h k e = (
  [],
  sym (split_names next rest k)
      ∙ ap split e
      ∙ split_names part parts h
      ∙ sym (append-nil (part ∷ parts)),
)

under-Begins :
    (part : Text) (parts : List Text) (next : Text) (rest : List Text) (tail : Text)
    → All IsName (part ∷ parts)
    → All IsName (next ∷ rest)
    → join (next ∷ rest) ≡ join (part ∷ parts) ++ (slash ∷ tail)
    → Begins (part ∷ parts) (next ∷ rest)
under-Begins part parts next rest tail h k e = (
  split tail,
  sym (split_names next rest k)
      ∙ ap split e
      ∙ split-join-append part parts tail (All-NoSlash (part ∷ parts) h),
)

under→Begins :
    (part : Text) (parts : List Text) (next : Text) (rest : List Text)
    → All IsName (part ∷ parts)
    → All IsName (next ∷ rest)
    → under (join (part ∷ parts)) (join (next ∷ rest)) ≡ true
    → Begins (part ∷ parts) (next ∷ rest)
under→Begins part parts next rest h k e =
    elim (under-cases (join (part ∷ parts)) (join (next ∷ rest)) e) [
      | inl same ↦ same-Begins part parts next rest h k same
      | inr (tail, eq) ↦ under-Begins part parts next rest tail h k eq
    ]

Begins→under :
    (part : Text) (parts below rest : List Text)
    → below ≡ (part ∷ parts) ++ rest
    → under (join (part ∷ parts)) (join below) ≡ true
Begins→under part parts below [] e = rw (e, append-nil parts) (under_self (join (part ∷ parts)))
Begins→under part parts below (next ∷ rest) e =
    rw (e, join-append part parts next rest)
      (under-append (join (part ∷ parts)) (join (next ∷ rest)))

Begins→under-all :
    (part : Text) (parts below : List Text)
    → Begins (part ∷ parts) below
    → under (join (part ∷ parts)) (join below) ≡ true
Begins→under-all part parts below (rest, e) = Begins→under part parts below rest e

under-root : (p : Text) → is_empty p ≡ false → under p [] ≡ false
unfolding same_text has_prefix
under-root [] h = h
under-root (c ∷ p) h = refl

-- The test on two keys, by their names.
under_iff :
    (above below : List Text)
    → All IsName above
    → All IsName below
    → ((if is_empty (join above) then true else under (join above) (join below)) ≡ true)
      ↔ Begins above below
under_iff [] below h k = unfold join in (λ e. (below, refl), λ e. refl)
under_iff (part ∷ parts) [] h k = rw (join-is_empty part parts h) (
    unfold join in
    rw (under-root (join (part ∷ parts)) (join-is_empty part parts h))
      (λ e. ground (arith, e), λ b. ground (arith, b.1)))
under_iff (part ∷ parts) (next ∷ rest) h k =
    rw (join-is_empty part parts h)
      (under→Begins part parts next rest h k, Begins→under-all part parts (next ∷ rest))

parent_keys :
    (p c : Text)
    → normalize_stored_path p ≡ p
    → normalize_stored_path c ≡ c
    → is_parent_or_same p c ≡ (if is_empty p then true else under p c)
unfolding is_parent_or_same
parent_keys p c hp hc = rw (hp, hc) refl

-- On storage keys `is_parent_or_same` says exactly whether the names of the first are the first
-- names of the second.
pub is_parent_or_same_iff :
    (above below : List Text)
    → All IsName above
    → All IsName below
    → (is_parent_or_same (join above) (join below) ≡ true) ↔ Begins above below
is_parent_or_same_iff above below h k =
    rw (parent_keys (join above) (join below) (key-Fixed above h).0 (key-Fixed below k).0)
      (under_iff above below h k)
