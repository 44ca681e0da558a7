-- ===== src/OpStack/Transform.antt =====
-- The loop over deleteTransform in opStack.append.
use storhub.Prelude.{
  ℕ, zero, suc, ◌<◌, true, ◌&&◌, List, [], ◌∷◌, Option, none, some, ltb, ◌==◌, length, ◌≡◌, ◌⊎◌,
  refl, sym, ap, ◌∙◌, arith, Bool-cases, inl, inr, if-false,
}
use storhub.OpStack.{Op, OpStack, op_path, is_rename}
use storhub.OpStack.Index.{ops_at, without, removed, shift, shift_prune}
use storhub.OpStack.Fold.{
  transform_removed, transform_found, transform_at, delete_transform, transform_next,
  transform_loop,
}
use storhub.OpStack.Boundary.{passing, passing-without, ops_at-last, length-without, test_found}
use storhub.OpStack.Sealed.{is_sealed, IsOther, IsIndexed, unsealed_if_open, remove_at-found}

-- The rename that deleteTransform consumes: the last operation, of the open generation.
abbrev pub Consumes : OpStack → Op → ℕ → Op → Type 0
Consumes s op i existing =
    (suc i ≡ length s.ops)
    × (ops_at s.ops i ≡ some existing)
    × (is_rename existing.typ ≡ true)
    × (existing.gen ≡ s.gen)

transform_found-cases :
    (s : OpStack) (op : Op) (i : ℕ) (existing : Op)
    → suc i ≡ length s.ops
    → ops_at s.ops i ≡ some existing
    → (transform_found s op i (some existing) ≡ none)
      ⊎ (Consumes s op i existing
          × ((op2 : Op) × (transform_found s op i (some existing)
                ≡ some (removed s i existing, op2))
              × (op2.gen ≡ op.gen)))
unfolding transform_found transform_removed
transform_found-cases s op i existing last e =
    elim (Bool-cases (is_rename existing.typ && existing.gen == s.gen)) [
      | inl c ↦ inr (
        (last, e, ground (arith, c), ground (arith, c)),
        rw (c, remove_at-found s i existing e) (_, refl, refl),
      )
      | inr c ↦ inl (rw c refl)
    ]

-- The answer of one call of deleteTransform.
abbrev pub Transforms : OpStack → Op → Option (OpStack × Op) → Type 0
Transforms s op r =
    (r ≡ none)
    ⊎ ((i : ℕ) × (existing : Op) × Consumes s op i existing
        × ((op2 : Op) × (r ≡ some (removed s i existing, op2)) × (op2.gen ≡ op.gen)))

transform_last :
    (s : OpStack) (op : Op) (i : ℕ) (existing : Op)
    → suc i ≡ length s.ops
    → ops_at s.ops i ≡ some existing
    → Transforms s op (transform_found s op i (ops_at s.ops i))
transform_last s op i existing last e = rw e (elim (transform_found-cases s op i existing last e) [
  | inl h ↦ inl h
  | inr r ↦ inr (i, existing, r.0, r.1)
])

transform_at-Transforms :
    (s : OpStack) (op : Op) (target : Option ℕ) → Transforms s op (transform_at s op target)
unfolding transform_at
transform_at-Transforms s op none = inl refl
transform_at-Transforms s op (some i) = elim (Bool-cases (suc i == length s.ops)) [
  | inl last ↦
      let there = ops_at-last s.ops i (ground (arith, last)) in
      rw last (transform_last s op i there.0 (ground (arith, last)) there.1)
  | inr c ↦ inl (rw c refl)
]

pub delete_transform-Transforms : (s : OpStack) (op : Op) → Transforms s op (delete_transform s op)
unfolding delete_transform
delete_transform-Transforms s op = transform_at-Transforms s op (s.by_target (op_path op))

ops_at-without : (ops : List Op) (i j : ℕ) → j < i → ops_at (without ops i) j ≡ ops_at ops j
unfolding ops_at without
ops_at-without [] i j h = refl
ops_at-without (p ∷ ps) zero j h = absurd (omega (arith, h))
ops_at-without (p ∷ ps) (suc i) zero h = refl
ops_at-without (p ∷ ps) (suc i) (suc j) h = ops_at-without ps i j (omega (arith, h))

ops_at-below : (ops : List Op) (i : ℕ) (op : Op) → ops_at ops i ≡ some op → i < length ops
unfolding ops_at
ops_at-below [] i op h = ground (arith, h)
ops_at-below (p ∷ ps) zero op h = omega arith
ops_at-below (p ∷ ps) (suc i) op h = omega (arith, ops_at-below ps i op h)

i≡j : (j i : ℕ) → (j == i) ≡ true → i ≡ j
i≡j j i h = ground arith

-- An operation that is no rename stays where it is when the last rename goes.
IsOther-removed :
    (s : OpStack) (op existing : Op) (i j : ℕ)
    → Consumes s op i existing
    → IsOther s j
    → IsOther (removed s i existing) j × (j < i)
unfolding removed
IsOther-removed s op existing i j c o = elim (Bool-cases (j == i)) [
  | inl same ↦
      let one =
        ap (test_found (λ q. is_rename q.typ))
          (sym (c.1) ∙ ap (ops_at s.ops) (i≡j j i same) ∙ o.1) in
      absurd (ground (arith, one, c.2, o.2))
  | inr apart ↦
      let below = ops_at-below s.ops j o.0 o.1 in
      (
        (o.0, ops_at-without s.ops i j (ground (arith, below, c.0, apart)) ∙ o.1, o.2),
        ground (arith, below, c.0, apart),
      )
]

abbrev position : Option ℕ → ℕ
position none = 0
position (some j) = j

none≢some : {C : Type 0} (j : ℕ) → Option.none ≡ some j → C
none≢some j h = ground (arith, h)

shift-IsOther :
    (s : OpStack) (op existing : Op) (i : ℕ) (o : Option ℕ) (j : ℕ)
    → Consumes s op i existing
    → ((m : ℕ) → o ≡ some m → IsOther s m)
    → shift i o ≡ some j
    → IsOther (removed s i existing) j
unfolding shift
shift-IsOther s op existing i none j c e h = none≢some j h
shift-IsOther s op existing i (some k) j c e h =
    let (stays, below) = IsOther-removed s op existing i k c (e k refl) in
    rw (sym (ap position (sym (if-false {b = ltb i k} _ _ (ground (arith, below))) ∙ h))) stays

shift_prune-IsOther :
    (s : OpStack) (op existing : Op) (i : ℕ) (o : Option ℕ) (j : ℕ)
    → Consumes s op i existing
    → ((m : ℕ) → o ≡ some m → IsOther s m)
    → shift_prune i o ≡ some j
    → IsOther (removed s i existing) j
unfolding shift_prune
shift_prune-IsOther s op existing i none j c e h = none≢some j h
shift_prune-IsOther s op existing i (some k) j c e h =
    let (stays, below) = IsOther-removed s op existing i k c (e k refl) in
    rw
      (sym (
        ap position (
          sym (
            if-false {b = ltb i k} _ _ (ground (arith, below))
            ∙ if-false {b = k == i} _ _ (ground (arith, below)))
          ∙ h)))
      stays

removed-IsIndexed :
    (s : OpStack) (op existing : Op) (i : ℕ)
    → Consumes s op i existing
    → IsIndexed s
    → IsIndexed (removed s i existing)
removed-IsIndexed s op existing i c inv = record {
  path_at = λ k j h.
      shift-IsOther s op existing i (s.by_path k) j c (inv.path_at k) (unfold removed in h);
  prune_at =
      λ j h. shift_prune-IsOther s op existing i s.prune_idx j c inv.prune_at (unfold removed in h);
}

-- What the loop keeps: the index, the generations, and the sealed renames.
abbrev pub Transformed : OpStack → Op → OpStack × Op → Type 0
Transformed s op r =
    IsIndexed r.0
    × (r.0.gen ≡ s.gen)
    × (r.1.gen ≡ op.gen)
    × (passing (is_sealed s.gen) r.0.ops ≡ passing (is_sealed s.gen) s.ops)

pub transform_loop-Transformed :
    (fuel : ℕ) (s : OpStack) (op : Op) → IsIndexed s → Transformed s op (transform_loop fuel s op)
unfolding transform_loop transform_next removed
transform_loop-Transformed zero s op inv = (inv, refl, refl, refl)
transform_loop-Transformed (suc fuel) s op inv = elim (delete_transform-Transforms s op) [
  | inl h ↦ rw h (inv, refl, refl, refl)
  | inr r ↦
      let (i, existing, c, (op2, e, same)) = r in
      let (inv2, gen2, op_gen, kept) =
        transform_loop-Transformed fuel (removed s i existing) op2
          (removed-IsIndexed s op existing i c inv) in
      rw e (
        inv2,
        gen2,
        op_gen ∙ same,
        kept
            ∙ passing-without (is_sealed s.gen) s.ops i existing c.1
                (unsealed_if_open s.gen existing c.3),
      )
]

length-removed :
    (s : OpStack) (op existing : Op) (i : ℕ)
    → Consumes s op i existing
    → suc (length (removed s i existing).ops) ≡ length s.ops
unfolding removed
length-removed s op existing i c = length-without s.ops i (omega (arith, c.0))

-- The loop over deleteTransform ends because deleteTransform answers false: the fuel that append
-- gives it, one more than the operations on the stack, is enough.
pub transform_loop-ends :
    (fuel : ℕ) (s : OpStack) (op : Op)
    → length s.ops < fuel
    → delete_transform (transform_loop fuel s op).0 (transform_loop fuel s op).1 ≡ none
unfolding transform_loop transform_next
transform_loop-ends zero s op h = absurd (omega (arith, h))
transform_loop-ends (suc fuel) s op h = elim (delete_transform-Transforms s op) [
  | inl e ↦ rw e e
  | inr r ↦
      let (i, existing, c, (op2, e, same)) = r in
      rw e (
        transform_loop-ends fuel (removed s i existing) op2
          (omega (arith, length-removed s op existing i c, h)))
]
