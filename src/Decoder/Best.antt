-- ===== src/Decoder/Best.antt =====
-- getBestHypothesis of LexiconDecoder.cpp and LexiconFreeDecoder.cpp in src/libraries/decoder, and the
-- ancestor behind which `prune` forgets.
use wav2letter.Base.{
  ℕ, ◌+◌, ◌-◌, ◌≤◌, ◌≡◌, refl, sym, subst, ◌∙◌, inl, inr, Bool, List, [], ◌∷◌, ok, All, Bool-cases,
  arith,
}
use wav2letter.Beam.{
  Node, DecodeResult, look_back_limit, get_hypothesis, best_loop, find_best_ancestor,
}
use wav2letter.Beam.Ancestors.{look_back_lem}
use wav2letter.Decoder.State.{Setup, Decoder}
use wav2letter.Decoder.Online.{best_ancestor, best_hypothesis}
use wav2letter.Decoder.Frames.{Place}
use wav2letter.Decoder.Valid.{IsValid}
use wav2letter.Decoder.Chains.{IsWalk, drop-IsWalk, IsDecoded, last_frame-ok, get_hypothesis-ok}

module _ {ℓ} {S : Type ℓ} (zero_score : S) (greater : S → S → Bool)
    (is_complete : List (Node S) → Bool) where
  best_loop-All {κ} :
      (Q : List (Node S) → Type κ) (best_score : S) (best : List (Node S))
      (hyps : List (List (Node S)))
      → Q best
      → All Q hyps
      → Q (best_loop zero_score greater is_complete best_score best hyps)
  unfolding best_loop
  best_loop-All Q best_score best [] q all = q
  best_loop-All Q best_score best ([] ∷ hyps) q all = best_loop-All Q best_score best hyps q all.1
  best_loop-All Q best_score best ((nd ∷ chain) ∷ hyps) q all =
      elim (Bool-cases (greater nd.score best_score)) [
        | inl e ↦ rw e (best_loop-All Q nd.score (nd ∷ chain) hyps all.0 all.1)
        | inr e ↦ rw e (best_loop-All Q best_score best hyps q all.1)
      ]

module _ {ℓ κ μ π ν} {S : Type ℓ} {L : Type κ} {X : Type μ} (P : Place X → Type π)
    (R : Place X → Place X → Type π) {M : Type ν} (d : Setup S L X M) where
  -- The ancestor that is `k` steps back from the end of a walk of `n` steps, or none.
  pub data IsAncestor (n k : ℕ) : List (Node S) → Type (ℓ ⊔ μ ⊔ π) where
    no_ancestor : IsAncestor n k []
    ancestor :
        (y : Place X) (chain : List (Node S))
        → k ≤ n
        → IsWalk P R (n - k) y chain
        → IsAncestor n k chain

  find_best-IsAncestor :
      (n look_back : ℕ) (chains : List (List (Node S)))
      → All (λ chain. (x : Place X) × IsWalk P R n x chain) chains
      → let found =
          find_best_ancestor d.numbers.zero_score d.numbers.greater d.is_complete chains
            look_back in
        (found.1 ≤ look_back + look_back_limit) × IsAncestor n found.1 found.0
  unfolding find_best_ancestor
  find_best-IsAncestor n look_back [] all = (omega arith, no_ancestor)
  find_best-IsAncestor n look_back ([] ∷ chains) all = (omega arith, no_ancestor)
  find_best-IsAncestor n look_back ((nd ∷ chain) ∷ chains) all =
      let f = d.numbers in
      let best = best_loop f.zero_score f.greater d.is_complete nd.score (nd ∷ chain) chains in
      let behind = look_back_lem f.zero_score f.greater d.is_complete nd chain chains look_back in
      let walk =
        best_loop-All f.zero_score f.greater d.is_complete (λ c. (x : Place X) × IsWalk P R n x c)
          nd.score (nd ∷ chain) chains all.0 all.1 in
      (
        behind.bound,
        elim (drop-IsWalk P R _ n walk.0 best walk.1) [
          | inl gone ↦ subst (IsAncestor n _) (sym (behind.dropped ∙ gone)) no_ancestor
          | inr (y, le, back) ↦ subst (IsAncestor n _) (sym behind.dropped) (ancestor y _ le back)
        ],
      )

  pub best_ancestor-ok :
      (c : Decoder S L X M) (look_back : ℕ)
      → IsValid P R c
      → (best : List (Node S)) × (k : ℕ) × (best_ancestor d c look_back ≡ ok (best, k))
        × (k ≤ look_back + look_back_limit)
        × IsAncestor (c.n_decoded - c.n_pruned) k best
  unfolding best_ancestor
  best_ancestor-ok c look_back valid =
      let (chains, found, walks) = last_frame-ok P R d c valid in
      let (bound, is_ancestor) =
        find_best-IsAncestor (c.n_decoded - c.n_pruned) look_back chains walks in
      (_, _, rw found refl, bound, is_ancestor)

  -- What `getBestHypothesis` returns: nothing, or the walk of the best hypothesis without its last
  -- `k` frames.
  pub data IsBest (n : ℕ) : ℕ → DecodeResult S → Type (ℓ ⊔ μ ⊔ π) where
    nothing :
        (k : ℕ) → IsBest n k (record { score = d.numbers.zero_score; words = []; tokens = [] })
    without_last : (k : ℕ) (r : DecodeResult S) → k ≤ n → IsDecoded P R (n - k) r → IsBest n k r

  read-IsBest :
      (n k : ℕ) (chain : List (Node S))
      → IsAncestor n k chain
      → (r : DecodeResult S) × (get_hypothesis d.numbers.zero_score chain (n - k) ≡ ok r)
        × IsBest n k r
  unfolding get_hypothesis
  read-IsBest n k _ no_ancestor = (_, refl, nothing k)
  read-IsBest n k _ (ancestor y chain le walk) =
      let (r, read, decoded) = get_hypothesis-ok P R d (n - k) y chain walk in
      (r, read, without_last k r le decoded)

  pub best_hypothesis-ok :
      (c : Decoder S L X M) (look_back : ℕ)
      → IsValid P R c
      → (r : DecodeResult S) × (best_hypothesis d c look_back ≡ ok r)
        × (k : ℕ) × (k ≤ look_back + look_back_limit)
        × IsBest (c.n_decoded - c.n_pruned) k r
  unfolding best_hypothesis
  best_hypothesis-ok c look_back valid =
      let (best, k, found, bound, is_ancestor) = best_ancestor-ok c look_back valid in
      let (r, read, is_best) = read-IsBest (c.n_decoded - c.n_pruned) k best is_ancestor in
      (r, rw found read, k, bound, is_best)
