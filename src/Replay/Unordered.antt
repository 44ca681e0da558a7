-- ===== src/Replay/Unordered.antt =====
-- longestMovedPrefix of internal/storage/ops_replay.go, which ranges over a map.
use mathlib.Core.List.{Perm, Permᴰ}
use mathlib.Core.Logic.{∥∥₁_elim}
use storhub.Prelude.{
  true, false, [], ◌∷◌, ◌++◌, ltb, length, if◌then◌else◌, ◌≡◌, refl, sym, ap, ◌∙◌, arith,
  Bool-cases, inl, inr, ==_iff, ◌==◌, append-nil,
}
use storhub.Path.{Text, slash}
use storhub.Path.Remap.{under-cases}
use storhub.Replay.Moves.{Moves, covers, longer, better, longest_from, longest_moved_prefix}

-- Two beginnings of one text that have one length are the same.
same_beginning : (p q r s : Text) → p ++ r ≡ q ++ s → length p ≡ length q → p ≡ q
same_beginning [] [] r s e l = refl
same_beginning [] (c ∷ q) r s e l = absurd (omega (arith, l))
same_beginning (c ∷ p) [] r s e l = absurd (omega (arith, l))
same_beginning (c ∷ p) (d ∷ q) r s e l = ground (arith, e, l, same_beginning p q r s)

covers-begins : (key path : Text) → covers key path ≡ true → (rest : Text) × (path ≡ key ++ rest)
covers-begins [] path h = absurd (ground (arith, h))
covers-begins (c ∷ key) path h = elim (under-cases (c ∷ key) path h) [
  | inl e ↦ ([], e ∙ sym (append-nil (c ∷ key)))
  | inr (rest, e) ↦ (slash ∷ rest, e)
]

same_covers :
    (p q path : Text) → covers p path ≡ true → covers q path ≡ true → length p ≡ length q → p ≡ q
same_covers p q path hp hq l =
    let (r, e) = covers-begins p path hp in
    let (s, f) = covers-begins q path hq in same_beginning p q r s (sym e ∙ f) l

-- The longer text, the first one where they have one length.
abbrev pick : Text → Text → Text
pick best key = if ltb (length best) (length key) then key else best

pick_swap :
    (best p q : Text) → (length p ≡ length q → p ≡ q) → pick (pick best p) q ≡ pick (pick best q) p
pick_swap best p q same = elim (Bool-cases (length p == length q)) [
  | inl e ↦ rw (same ((==_iff (length p) (length q)).0 e)) refl
  | inr ne ↦ ground (arith, ne)
]

better-pick : (path best key : Text) → covers key path ≡ true → better path best key ≡ pick best key
unfolding better longer
better-pick path best key h = rw h refl

better-skip : (path best key : Text) → covers key path ≡ false → better path best key ≡ best
unfolding better longer
better-skip path best key h = rw h refl

better_swap :
    (path best p q : Text) → better path (better path best p) q ≡ better path (better path best q) p
better_swap path best p q = elim (Bool-cases (covers p path)) [
  | inr np ↦ rw (better-skip path best p np, better-skip path (better path best q) p np) refl
  | inl hp ↦ elim (Bool-cases (covers q path)) [
    | inr nq ↦ rw (better-skip path best q nq, better-skip path (better path best p) q nq) refl
    | inl hq ↦
        rw
          (
            better-pick path best p hp,
            better-pick path best q hq,
            better-pick path (pick best p) q hq,
            better-pick path (pick best q) p hp,
          )
          (pick_swap best p q (same_covers p q path hp hq))
  ]
]

longest_from-perm :
    {t u : Moves} (path : Text)
    → Permᴰ t u
    → (best : Text) → longest_from path best t ≡ longest_from path best u
unfolding longest_from
longest_from-perm path (Permᴰ.nil) best = refl
longest_from-perm path (Permᴰ.cons {a = (k, v)} {b = (l, w)} {l₁ = tail} e rest) best =
    ap (λ (k : Text). longest_from path (better path best k) tail) (ap (λ (m : Text × Text). m.0) e)
    ∙ longest_from-perm path rest _
longest_from-perm path
      (Permᴰ.swap {a = (k, v)} {b = (l, w)} {a' = (k', v')} {b' = (l', w')} {l = tail} e f) best =
    ap (λ (key : Text). longest_from path key tail)
      (better_swap path best k l
        ∙ ap (λ (key : Text). better path (better path best key) k)
            (ap (λ (m : Text × Text). m.0) f)
        ∙ ap (λ (key : Text). better path (better path best k') key)
            (ap (λ (m : Text × Text). m.0) e))
longest_from-perm path (Permᴰ.trans first second) best =
    longest_from-perm path first best ∙ longest_from-perm path second best

Text_set : IsSet Text
Text_set = hlevel

-- The order in which the map is ranged over does not change what longestMovedPrefix answers.
pub longest_moved_prefix-perm :
    {t u : Moves} (path : Text)
    → Perm t u
    → longest_moved_prefix t path ≡ longest_moved_prefix u path
unfolding longest_moved_prefix
longest_moved_prefix-perm path p = ∥∥₁_elim p (Text_set _ _) (λ d. longest_from-perm path d [])
