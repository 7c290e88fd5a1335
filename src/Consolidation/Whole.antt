-- ===== src/Consolidation/Whole.antt =====
-- The three promises of ConsolidateV4 and ConsolidateV6 on plain prefixes: no address is lost or
-- added, no result lies inside another, and no two halves of a network stay apart that the loop
-- reaches.
use Prim.Native.Nat.{pred}
use edgecdnx_controller.Common.{
  ℕ, suc, ◌<◌, ◌≡◌, sym, ◌∙◌, Bool, true, false, List, arith, any, all, Bool-cases, inl, inr,
  any-perm, any_mono, any-found, not_both,
}
use edgecdnx_controller.Net.{Family, IsLawful as IsLawfulFamily, mask}
use edgecdnx_controller.Consolidation.{
  PrefixSpec, Ordering, IsLawful, merge_rounds, keep_prefixes, consolidate,
}
use edgecdnx_controller.Consolidation.Coverage.{covers, covered, is_net}
use edgecdnx_controller.Consolidation.Entries.{is_plain}
use edgecdnx_controller.Consolidation.Kept.{
  is_within, keep_prefixes-not_within, keep_prefixes-subset, is_net-within, covered-keep_prefixes,
}
use native.Mathlib.Decide.{ℕ_discrete}
use edgecdnx_controller.Consolidation.Rounds.{
  covered-merge_rounds, merge_rounds-is_plain, merge_rounds-parent,
}

module _ (f : Family) (lawful : IsLawfulFamily f) (o : Ordering) (fair : IsLawful o) where
  -- The list from which the result is chosen.
  abbrev merged : List PrefixSpec → List PrefixSpec
  merged ps = merge_rounds f o (pred f.width) ps

  sorted-any :
      (ps : List PrefixSpec) (q : PrefixSpec → Bool)
      → any q (consolidate f o ps) ≡ any q (keep_prefixes f (merged ps))
  unfolding consolidate
  sorted-any ps q = any-perm q (fair.sort-perm _ _)

  -- For prefixes whose addresses, where they parse, are plain, the result of ConsolidateV4 and
  -- ConsolidateV6 covers an address exactly when the given prefixes do.
  pub covered-consolidate :
      (ps : List PrefixSpec) (x : ℕ)
      → 0 < f.width
      → all (is_plain f) ps ≡ true
      → covered f (consolidate f o ps) x ≡ covered f ps x
  covered-consolidate ps x h plain =
      sorted-any ps (covers f x)
      ∙ covered-keep_prefixes f (merged ps) x
      ∙ covered-merge_rounds f lawful o fair (pred f.width) ps x (omega arith) plain

  -- For prefixes whose addresses, where they parse, are plain, no prefix of the result is longer
  -- than another one of the result and lies inside it.
  pub consolidate-not_within :
      (ps : List PrefixSpec)
      → 0 < f.width
      → all (is_plain f) ps ≡ true
      → any (λ q. any (λ p. is_within f p q) (consolidate f o ps)) (consolidate f o ps) ≡ false
  consolidate-not_within ps h plain =
      let plain' : all (is_plain f) (merged ps) ≡ true =
        merge_rounds-is_plain f lawful o fair (pred f.width) ps (omega arith) plain in
      let out = consolidate f o ps in
      let inner : (q : PrefixSpec)
          → any (λ p. is_within f p q) out ≡ true
          → any (λ p. is_within f p q) (merged ps) ≡ true =
        λ q h.
          keep_prefixes-subset f (merged ps) (λ p. is_within f p q)
            (sym (sorted-any ps (λ p. is_within f p q)) ∙ h) in
      elim (Bool-cases (any (λ q. any (λ p. is_within f p q) out) out)) [
        | inr e ↦ e
        | inl e ↦ absurd (
            not_both
              (any_mono _ _ (keep_prefixes f (merged ps)) inner
                (sym (sorted-any ps (λ q. any (λ p. is_within f p q) out)) ∙ e))
              (keep_prefixes-not_within f lawful (merged ps) plain'))
      ]

  -- For plain prefixes, the result holds no two halves of a network longer than one bit: two of its
  -- networks of one length, from 3 up to the width, with the same parent are the same network.
  pub consolidate-no_halves :
      (ps : List PrefixSpec) (l a b : ℕ)
      → all (is_plain f) ps ≡ true
      → 1 < l
      → l < f.width
      → any (is_net f a (suc l)) (consolidate f o ps) ≡ true
      → any (is_net f b (suc l)) (consolidate f o ps) ≡ true
      → mask f.width l a ≡ mask f.width l b
      → a ≡ b
  consolidate-no_halves ps l a b plain lo hi ha hb same = elim (ℕ_discrete a b) [
    | yes e ↦ e
    | no ne ↦
        let ka = sym (sorted-any ps (is_net f a (suc l))) ∙ ha in
        let kb = sym (sorted-any ps (is_net f b (suc l))) ∙ hb in
        let parent =
          merge_rounds-parent f lawful o fair (pred f.width) l ps a b (omega arith) lo (omega arith)
            plain (keep_prefixes-subset f (merged ps) _ ka)
            (keep_prefixes-subset f (merged ps) _ kb) same ne in
        let (p, hp, inp) = any-found _ (merged ps) parent in
        absurd (
          not_both
            (any_mono (is_net f a (suc l)) (λ q. any (λ r. is_within f r q) (merged ps))
              (keep_prefixes f (merged ps))
              (λ q h. inp (λ r. is_within f r q) (is_net-within f l a p q hp h)) ka)
            (keep_prefixes-not_within f lawful (merged ps)
              (merge_rounds-is_plain f lawful o fair (pred f.width) ps (omega arith) plain)))
  ]
