-- ===== src/Replay/Mints.antt =====
-- allocInodeAvoiding and allocChunkAvoiding of internal/storage/ops_replay.go.
use storhub.Prelude.{
  ℕ, zero, suc, ◌+◌, ◌-◌, ◌≤◌, ◌<◌, Bool, true, false, List, [], ◌∷◌, ◌==◌, leb, length, All, ◌≡◌,
  refl, sym, subst, ◌∙◌, arith, ==_iff, if◌then◌else◌, Bool-cases, inl, inr,
}
use storhub.Replay.{elem}
use storhub.Replay.Counters.{Alloc, ok, err, space_exhausted, bound_exhausted, bumped, mint_loop}

-- The claimed ids from one on: what is left to collide with.
count_from : ℕ → List ℕ → ℕ
count_from n [] = 0
count_from n (x ∷ xs) = let rest = count_from n xs in if leb n x then suc rest else rest

count_from-length : (n : ℕ) (xs : List ℕ) → count_from n xs ≤ length xs
unfolding count_from
count_from-length n [] = omega arith
count_from-length n (x ∷ xs) = ground (arith, count_from-length n xs)

count_from-suc : (n : ℕ) (xs : List ℕ) → count_from (suc n) xs ≤ count_from n xs
unfolding count_from
count_from-suc n [] = omega arith
count_from-suc n (x ∷ xs) = ground (arith, count_from-suc n xs)

count_from-elem : (n : ℕ) (xs : List ℕ) → elem n xs ≡ true → count_from (suc n) xs < count_from n xs
unfolding count_from elem
count_from-elem n [] h = ground (arith, h)
count_from-elem n (x ∷ xs) h = ground (arith, h, count_from-suc n xs, count_from-elem n xs)

-- The ids that follow each other from one on.
abbrev pub run : ℕ → ℕ → List ℕ
run n zero = []
run n (suc k) = n ∷ run (suc n) k

-- The answer is the first id from the counter on that is not taken, below the last one, and the
-- counter stands behind it; or all ids below the last one are taken, and the counter stands behind
-- the last one.
abbrev pub Mints : (ℕ → Bool) → ℕ → ℕ → ℕ × Alloc → Type 0
Mints taken last next (after, ok id) =
    (skipped : ℕ) × (id ≡ next + skipped)
    × All (λ (k : ℕ). taken k ≡ true) (run next skipped)
    × (taken id ≡ false)
    × (id < last)
    × (after ≡ id + 1)
Mints taken last next (after, err space_exhausted) =
    All (λ (k : ℕ). taken k ≡ true) (run next (last - next)) × (after ≡ bumped last)
Mints taken last next (after, err (bound_exhausted n)) = ⊥

-- A taken id is skipped.
Mints-skip :
    (taken : ℕ → Bool) (last next : ℕ) (out : ℕ × Alloc)
    → taken next ≡ true
    → next < last
    → Mints taken last (suc next) out
    → Mints taken last next out
Mints-skip taken last next (after, ok id) t h (skipped, e, rest, free, low, behind) =
    (suc skipped, omega (arith, e), (t, rest), free, low, behind)
Mints-skip taken last next (after, err space_exhausted) t h (rest, e) = (
  subst (λ (n : ℕ). All (λ (k : ℕ). taken k ≡ true) (run next n)) (left last next h) (t, rest),
  e,
)
  where
    left : (m n : ℕ) → n < m → suc (m - suc n) ≡ m - n
    left m n h = omega (arith, h)
Mints-skip taken last next (after, err (bound_exhausted n)) t h m = m

bumped_below :
    (next last : ℕ) → next < last → last < 18_446_744_073_709_551_616 → bumped next ≡ suc next
unfolding bumped
bumped_below next last h w = omega (arith, h, w)

Mints-last :
    (taken : ℕ → Bool) (last next : ℕ)
    → next ≡ last
    → Mints taken last next (bumped next, err space_exhausted)
Mints-last taken last next e =
    rw (← e)
      (subst (λ (n : ℕ). All (λ (k : ℕ). taken k ≡ true) (run next n)) (none_left next) tt, refl)
  where
    none_left : (n : ℕ) → 0 ≡ n - n
    none_left n = omega arith

mint_loop-Mints :
    (taken : ℕ → Bool) (claimed : List ℕ) (last : ℕ)
    → ((k : ℕ) → elem k claimed ≡ taken k)
    → last < 18_446_744_073_709_551_616
    → (rounds next : ℕ) → next ≤ last
    → count_from next claimed < rounds
    → Mints taken last next (mint_loop rounds last claimed next)
unfolding mint_loop
mint_loop-Mints taken claimed last same w zero next h r = absurd (omega (arith, r))
mint_loop-Mints taken claimed last same w (suc rounds) next h r = elim (Bool-cases (next == last)) [
  | inl e ↦ rw e (Mints-last taken last next ((==_iff next last).0 e))
  | inr e ↦
      let below : next < last = ground (arith, h, e) in
      elim (Bool-cases (elem next claimed)) [
        | inl t ↦
            rw (e, t, bumped_below next last below w)
              (Mints-skip taken last next _ (sym (same next) ∙ t) below (
                mint_loop-Mints taken claimed last same w rounds (suc next) (omega (arith, below))
                  (omega (arith, count_from-elem next claimed t, r))))
        | inr t ↦
            rw (e, t, bumped_below next last below w)
              (0, omega arith, tt, sym (same next) ∙ t, below, omega arith)
      ]
]

-- The rounds are enough, whatever is claimed.
pub mint-Mints :
    (taken : ℕ → Bool) (claimed : List ℕ) (last next : ℕ)
    → ((k : ℕ) → elem k claimed ≡ taken k)
    → last < 18_446_744_073_709_551_616
    → next ≤ last
    → Mints taken last next (mint_loop (suc (length claimed)) last claimed next)
mint-Mints taken claimed last next same w h =
    mint_loop-Mints taken claimed last same w (suc (length claimed)) next h
      (omega (arith, count_from-length next claimed))
