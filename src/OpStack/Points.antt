-- ===== src/OpStack/Points.antt =====
-- Maps from keys to positions, and what the list surgery of the stack does to what they point at.
use storhub.Prelude.{
  ℕ, zero, suc, ◌≤◌, ◌<◌, true, false, List, [], ◌∷◌, ◌++◌, Option, none, some, ltb, ◌==◌, length,
  ◌≡◌, ◌⊎◌, refl, sym, ap, ◌∙◌, arith, Bool-cases, inl, inr, if-true, if-false,
}
use storhub.OpStack.{Op}
use storhub.OpStack.Index.{ops_at, without, set_at, shift, shift_prune}

-- The position holds an operation with the property.
abbrev pub Holds : (Op → Type 0) → List Op → ℕ → Type 0
Holds P ops i = (op : Op) × (ops_at ops i ≡ some op) × P op

pub ops_at-append :
    (ops qs : List Op) (i : ℕ) (op : Op) → ops_at ops i ≡ some op → ops_at (ops ++ qs) i ≡ some op
unfolding ops_at
ops_at-append [] qs i op h = ground (arith, h)
ops_at-append (p ∷ ps) qs zero op h = h
ops_at-append (p ∷ ps) qs (suc i) op h = ops_at-append ps qs i op h

pub ops_at-push : (ops : List Op) (op : Op) → ops_at (ops ++ op ∷ []) (length ops) ≡ some op
unfolding ops_at
ops_at-push [] op = refl
ops_at-push (p ∷ ps) op = ops_at-push ps op

pub ops_at-below : (ops : List Op) (i j : ℕ) → j < i → ops_at (without ops i) j ≡ ops_at ops j
unfolding ops_at without
ops_at-below [] i j h = refl
ops_at-below (p ∷ ps) zero j h = absurd (omega (arith, h))
ops_at-below (p ∷ ps) (suc i) zero h = refl
ops_at-below (p ∷ ps) (suc i) (suc j) h = ops_at-below ps i j (omega (arith, h))

pub ops_at-above : (ops : List Op) (i j : ℕ) → i ≤ j → ops_at (without ops i) j ≡ ops_at ops (suc j)
unfolding ops_at without
ops_at-above [] i j h = refl
ops_at-above (p ∷ ps) zero j h = refl
ops_at-above (p ∷ ps) (suc i) zero h = absurd (omega (arith, h))
ops_at-above (p ∷ ps) (suc i) (suc j) h = ops_at-above ps i j (omega (arith, h))

ops_at-set_at-other :
    (ops : List Op) (i j : ℕ) (new : Op)
    → (j == i) ≡ false
    → ops_at (set_at ops i new) j ≡ ops_at ops j
unfolding ops_at set_at
ops_at-set_at-other [] i j new h = refl
ops_at-set_at-other (p ∷ ps) zero zero new h = ground (arith, h)
ops_at-set_at-other (p ∷ ps) zero (suc j) new h = refl
ops_at-set_at-other (p ∷ ps) (suc i) zero new h = refl
ops_at-set_at-other (p ∷ ps) (suc i) (suc j) new h =
    ops_at-set_at-other ps i j new (ground (arith, h))

pub ops_at-set_at-same :
    (ops : List Op) (i : ℕ) (old new : Op)
    → ops_at ops i ≡ some old
    → ops_at (set_at ops i new) i ≡ some new
unfolding ops_at set_at
ops_at-set_at-same [] i old new h = ground (arith, h)
ops_at-set_at-same (p ∷ ps) zero old new h = refl
ops_at-set_at-same (p ∷ ps) (suc i) old new h = ops_at-set_at-same ps i old new h

abbrev position : Option ℕ → ℕ
position none = 0
position (some j) = j

i<k : (i k : ℕ) → ltb i k ≡ true → i < k
i<k i k h = ground (arith, h)

i≡k : (i k : ℕ) → (k == i) ≡ true → i ≡ k
i≡k i k h = ground (arith, h)

-- A position after the operation at `i` is removed: it was `i`, or it holds what it held.
pub shift-Holds :
    (P : Op → Type 0) (ops : List Op) (i : ℕ) (o : Option ℕ) (j : ℕ)
    → ((m : ℕ) → o ≡ some m → Holds P ops m)
    → shift i o ≡ some j
    → (o ≡ some i) ⊎ Holds P (without ops i) j
unfolding shift
shift-Holds P ops i none j e h = ground (arith, h)
shift-Holds P ops i (some k) j e h =
    let (op, at, p) = e k refl in
    elim (Bool-cases (ltb i k)) [
      | inl above ↦
          let k≡j = ap position (sym (if-true {b = ltb i k} _ _ above) ∙ h) in
          inr (
            op,
            ops_at-above ops i j (omega (arith, k≡j, i<k i k above))
                ∙ ap (ops_at ops) (omega (arith, k≡j, i<k i k above))
                ∙ at,
            p,
          )
      | inr below ↦
          let k≡j = ap position (sym (if-false {b = ltb i k} _ _ below) ∙ h) in
          elim (Bool-cases (k == i)) [
            | inl here ↦ inl (ap some (sym (i≡k i k here)))
            | inr there ↦ inr (
              op,
              ops_at-below ops i j (ground (arith, k≡j, below, there))
                  ∙ ap (ops_at ops) (sym k≡j)
                  ∙ at,
              p,
            )
          ]
    ]

pub shift_prune-Holds :
    (P : Op → Type 0) (ops : List Op) (i : ℕ) (o : Option ℕ) (j : ℕ)
    → ((m : ℕ) → o ≡ some m → Holds P ops m)
    → shift_prune i o ≡ some j
    → Holds P (without ops i) j
unfolding shift_prune
shift_prune-Holds P ops i none j e h = ground (arith, h)
shift_prune-Holds P ops i (some k) j e h =
    let (op, at, p) = e k refl in
    elim (Bool-cases (ltb i k)) [
      | inl above ↦
          let k≡j = ap position (sym (if-true {b = ltb i k} _ _ above) ∙ h) in
          (
            op,
            ops_at-above ops i j (omega (arith, k≡j, i<k i k above))
                ∙ ap (ops_at ops) (omega (arith, k≡j, i<k i k above))
                ∙ at,
            p,
          )
      | inr below ↦ elim (Bool-cases (k == i)) [
        | inl here ↦ ground (
          arith,
          sym (if-true {b = k == i} _ _ here) ∙ sym (if-false {b = ltb i k} _ _ below) ∙ h,
        )
        | inr there ↦
            let k≡j = ap position (
              sym (if-false {b = k == i} _ _ there) ∙ sym (if-false {b = ltb i k} _ _ below) ∙ h) in
            (
              op,
              ops_at-below ops i j (ground (arith, k≡j, below, there))
                  ∙ ap (ops_at ops) (sym k≡j)
                  ∙ at,
              p,
            )
      ]
    ]

pub set_at-Holds :
    (P : Op → Type 0) (ops : List Op) (i j : ℕ) (old new : Op)
    → ops_at ops i ≡ some old
    → ((op : Op) → ops_at ops i ≡ some op → P op → P new)
    → Holds P ops j
    → Holds P (set_at ops i new) j
set_at-Holds P ops i j old new at k (op, e, p) = elim (Bool-cases (j == i)) [
  | inl same ↦
      let j≡i = i≡k j i (ground (arith, same)) in
      (
        new,
        ap (ops_at (set_at ops i new)) j≡i ∙ ops_at-set_at-same ops i old new at,
        k op (ap (ops_at ops) (sym j≡i) ∙ e) p,
      )
  | inr apart ↦ (op, ops_at-set_at-other ops i j new apart ∙ e, p)
]
