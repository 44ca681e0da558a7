-- ===== src/Replay/Live.antt =====
-- resolveLive of internal/storage/ops_replay.go.
use storhub.Prelude.{
  ℕ, zero, suc, ◌≤◌, true, false, List, [], ◌∷◌, All, length, ◌≡◌, refl, ap, ◌∙◌, subst, arith,
  Bool-cases, inl, inr, if◌then◌else◌,
}
use storhub.Path.{Text, is_empty, same_text, metadata_stored_path}
use storhub.Path.Resolver.{RepoMetadata, has_directory}
use storhub.Path.Keys.{same_text→≡}
use storhub.Replay.Moves.{
  Moves, longest_moved_prefix, relocated, has_text, round_of, is_live, resolve_loop, resolve_live,
  resolve_on, Round, moves_to,
}

module _ (meta : RepoMetadata) (moved : Moves) (target : Text) where
  -- So many translations by the longest moved prefix lead from a path that is not live, over paths
  -- that are not, to the target, which is live.
  abbrev pub Reaches : ℕ → Text → Type 0
  Reaches zero t = (is_live meta t ≡ true) × (t ≡ target)
  Reaches (suc n) t =
      (is_live meta t ≡ false)
      × (is_empty (longest_moved_prefix moved t) ≡ false)
      × Reaches n (relocated moved (longest_moved_prefix moved t) t)

  Reaches-unique : (m n : ℕ) (t : Text) → Reaches m t → Reaches n t → m ≡ n
  Reaches-unique zero zero t h k = refl
  Reaches-unique zero (suc n) t h k = absurd (ground (arith, h.0, k.0))
  Reaches-unique (suc m) zero t h k = absurd (ground (arith, h.0, k.0))
  Reaches-unique (suc m) (suc n) t h k = ap suc (Reaches-unique m n _ h.2 k.2)

  -- The paths that were seen are further off.
  abbrev Ahead : ℕ → Text → Type 0
  Ahead n t = (m : ℕ) × (n ≤ m) × Reaches m t

  Ahead-weaken : (n : ℕ) (seen : List Text) → All (Ahead (suc n)) seen → All (Ahead n) seen
  Ahead-weaken n [] h = tt
  Ahead-weaken n (s ∷ seen) ((m, le, r), h) = ((m, omega (arith, le), r), Ahead-weaken n seen h)

  Ahead-seen :
      (n : ℕ) (t : Text) (seen : List Text)
      → All (Ahead n) seen
      → has_text t seen ≡ true
      → Ahead n t
  unfolding has_text
  Ahead-seen n t [] h e = absurd (ground (arith, e))
  Ahead-seen n t (s ∷ seen) h e = elim (Bool-cases (same_text s t)) [
    | inl same ↦ subst (Ahead n) (same_text→≡ s t same) h.0
    | inr other ↦ Ahead-seen n t seen h.1 (rw other at e)
  ]

  unseen :
      (n : ℕ) (t : Text) (seen : List Text)
      → All (Ahead (suc n)) seen
      → Reaches n t
      → has_text t seen ≡ false
  unseen n t seen h r = elim (Bool-cases (has_text t seen)) [
    | inr e ↦ e
    | inl e ↦
        let (m, le, far) = Ahead-seen (suc n) t seen h e in
        let same = Reaches-unique m n t far r in absurd (omega (arith, le, same))
  ]

  round_of-moves :
      (seen : List Text) (cur next : Text)
      → relocated moved (longest_moved_prefix moved cur) cur ≡ next
      → is_empty (longest_moved_prefix moved cur) ≡ false
      → has_text next seen ≡ false
      → round_of moved seen cur ≡ moves_to next
  unfolding round_of
  round_of-moves seen cur next to key fresh = rw (key, to, fresh) refl

  resolve_loop-moves :
      (path : Text) (rounds : ℕ) (seen : List Text) (cur next : Text)
      → relocated moved (longest_moved_prefix moved cur) cur ≡ next
      → is_empty (longest_moved_prefix moved cur) ≡ false
      → has_text next seen ≡ false
      → resolve_loop meta moved path (suc rounds) seen cur ≡ (
          if is_live meta next
          then next
          else resolve_loop meta moved path rounds (next ∷ seen) next)
  unfolding resolve_loop resolve_on
  resolve_loop-moves path rounds seen cur next to key fresh =
      ap
        (λ (round : Round).
          resolve_on meta path round
            (λ (t : Text). resolve_loop meta moved path rounds (t ∷ seen) t))
        (round_of-moves seen cur next to key fresh)

  resolve_loop-Reaches :
      (path : Text) (rounds n : ℕ) (seen : List Text) (cur : Text)
      → suc n ≤ rounds
      → All (Ahead (suc n)) seen
      → Reaches (suc n) cur
      → resolve_loop meta moved path rounds seen cur ≡ target
  resolve_loop-Reaches path zero n seen cur le h r = absurd (omega (arith, le))
  resolve_loop-Reaches path (suc rounds) zero seen cur le h (dead, key, r) =
      resolve_loop-moves path rounds seen cur _ refl key (unseen 0 _ seen h r) ∙ rw r.0 r.1
  resolve_loop-Reaches path (suc rounds) (suc n) seen cur le h (dead, key, r) =
      resolve_loop-moves path rounds seen cur _ refl key (unseen (suc n) _ seen h r)
      ∙ rw r.0 (
          resolve_loop-Reaches path rounds n _ _ (omega (arith, le))
            ((suc n, omega arith, r), Ahead-weaken (suc n) seen h) r)

root_is_live : (meta : RepoMetadata) → is_live meta [] ≡ true
unfolding is_live has_directory metadata_stored_path
root_is_live meta = refl

-- Where translations by the longest moved prefix lead from a path over paths that are not live to
-- one that is, in no more steps than the table has entries and one, resolveLive answers that one.
pub resolve_live-Reaches :
    (meta : RepoMetadata) (moved : Moves) (path target : Text) (n : ℕ)
    → Reaches meta moved target n path
    → n ≤ suc (length moved)
    → resolve_live meta moved path ≡ target
unfolding resolve_live is_live
resolve_live-Reaches meta moved [] target zero r le = r.1
resolve_live-Reaches meta moved [] target (suc n) r le =
    absurd (ground (arith, root_is_live meta, r.0))
resolve_live-Reaches meta moved (c ∷ path) target zero r le = rw r.0 r.1
resolve_live-Reaches meta moved (c ∷ path) target (suc n) r le = rw r.0 (
    resolve_loop-Reaches meta moved target (c ∷ path) (suc (length moved)) n ((c ∷ path) ∷ [])
      (c ∷ path) le ((suc n, omega arith, r), tt) r)
