-- ===== src/OpStack/Boundary.antt =====
-- Lists of operations cut down by a test, and what the list surgery of the stack does to them.
use storhub.Prelude.{
  ℕ, zero, suc, ◌<◌, Bool, false, List, [], ◌∷◌, ◌++◌, Option, none, some, if◌then◌else◌, length,
  ◌≡◌, refl, ap, ◌∙◌, arith,
}
use storhub.OpStack.{Op}
use storhub.OpStack.Index.{ops_at, without, set_at}

-- The operations that pass a test, in order.
unfoldable pub passing : (Op → Bool) → List Op → List Op
passing test [] = []
passing test (op ∷ ops) = if test op then op ∷ passing test ops else passing test ops

abbrev pub test_found : (Op → Bool) → Option Op → Bool
test_found test none = false
test_found test (some op) = test op

pub passing-append :
    (test : Op → Bool) (ps qs : List Op)
    → passing test (ps ++ qs) ≡ passing test ps ++ passing test qs
unfolding passing
passing-append test [] qs = refl
passing-append test (p ∷ ps) qs = ground (arith, passing-append test ps qs)

pub passing-push :
    (test : Op → Bool) (ops : List Op) (op : Op)
    → test op ≡ false
    → passing test (ops ++ op ∷ []) ≡ passing test ops
unfolding passing
passing-push test [] op h = rw h refl
passing-push test (p ∷ ps) op h = ground (arith, passing-push test ps op h)

pub passing-without :
    (test : Op → Bool) (ops : List Op) (i : ℕ) (op : Op)
    → ops_at ops i ≡ some op
    → test op ≡ false
    → passing test (without ops i) ≡ passing test ops
unfolding passing without ops_at
passing-without test [] i op e h = refl
passing-without test (p ∷ ps) zero op e h = rw (ap (test_found test) e ∙ h) refl
passing-without test (p ∷ ps) (suc i) op e h = ground (arith, passing-without test ps i op e h)

pub passing-set_at :
    (test : Op → Bool) (ops : List Op) (i : ℕ) (op new : Op)
    → ops_at ops i ≡ some op
    → test op ≡ false
    → test new ≡ false
    → passing test (set_at ops i new) ≡ passing test ops
unfolding passing set_at ops_at
passing-set_at test [] i op new e h k = refl
passing-set_at test (p ∷ ps) zero op new e h k = rw (ap (test_found test) e ∙ h, k) refl
passing-set_at test (p ∷ ps) (suc i) op new e h k =
    ground (arith, passing-set_at test ps i op new e h k)

-- The last operation of a list.
pub ops_at-last :
    (ops : List Op) (i : ℕ) → suc i ≡ length ops → (op : Op) × (ops_at ops i ≡ some op)
unfolding ops_at
ops_at-last [] i h = absurd (omega (arith, h))
ops_at-last (p ∷ []) zero h = (p, refl)
ops_at-last (p ∷ q ∷ ps) zero h = absurd (omega (arith, h))
ops_at-last (p ∷ ps) (suc i) h = ops_at-last ps i (omega (arith, h))

pub length-without :
    (ops : List Op) (i : ℕ) → i < length ops → suc (length (without ops i)) ≡ length ops
unfolding without
length-without [] i h = absurd (omega (arith, h))
length-without (p ∷ ps) zero h = refl
length-without (p ∷ ps) (suc i) h = omega (arith, length-without ps i (omega (arith, h)))
