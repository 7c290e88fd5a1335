-- ===== src/Consolidation/Rounds.antt =====
-- The rounds of joining, from the longest prefixes on: they keep the covered addresses, and leave no
-- two halves without their network.
use edgecdnx_controller.Common.{
  ℕ, zero, suc, ◌≤◌, ◌<◌, ◌≡◌, refl, sym, ◌∙◌, ◌≢◌, Bool, true, List, [], arith, ◌==◌, ==_iff, any,
  all, Bool-cases, inl, inr, any-append, any-of_All, and_right,
}
use edgecdnx_controller.Net.{Family, IsLawful as IsLawfulFamily, IpNet, mask}
use edgecdnx_controller.Consolidation.{
  PrefixSpec, Ordering, IsLawful, merge_round, merge_rounds, joined_prefixes, smaller_subnets,
  add_consolidables, Consolidable,
}
use edgecdnx_controller.Consolidation.Coverage.{covered, is_net, is_net-eq-true}
use edgecdnx_controller.Consolidation.Entries.{is_plain, IsEntry}
use edgecdnx_controller.Consolidation.Merge.{
  covered-merge_round, merge_round-is_plain, round_entries, any-joined_prefixes, any-joined_perm,
  joined, is_joined, is_joined-entry,
}
use edgecdnx_controller.Consolidation.Siblings.{merge_round-parent}

module _ (f : Family) (lawful : IsLawfulFamily f) (o : Ordering) (fair : IsLawful o) where
  pub covered-merge_rounds :
      (n : ℕ) (ps : List PrefixSpec) (x : ℕ)
      → n < f.width
      → all (is_plain f) ps ≡ true
      → covered f (merge_rounds f o n ps) x ≡ covered f ps x
  unfolding merge_rounds
  covered-merge_rounds zero ps x h plain = refl
  covered-merge_rounds (suc zero) ps x h plain = refl
  covered-merge_rounds (suc (suc n)) ps x h plain =
      covered-merge_rounds (suc n) (merge_round f o (suc (suc n)) ps) x (omega arith)
        (merge_round-is_plain f lawful (suc (suc n)) h o fair ps plain)
      ∙ covered-merge_round f lawful (suc (suc n)) h o fair ps x plain

  -- What is in the list stays in it.
  merge_round-keeps :
      (n : ℕ) (ps : List PrefixSpec) (q : PrefixSpec → Bool)
      → any q ps ≡ true
      → any q (merge_round f o n ps) ≡ true
  unfolding merge_round
  merge_round-keeps n ps q h = ground (
    arith,
    any-append q ps
        (joined_prefixes f (o.range n (add_consolidables f n (smaller_subnets n ps) []))),
  )

  merge_rounds-keeps :
      (n : ℕ) (ps : List PrefixSpec) (q : PrefixSpec → Bool)
      → any q ps ≡ true
      → any q (merge_rounds f o n ps) ≡ true
  unfolding merge_rounds
  merge_rounds-keeps zero ps q h = h
  merge_rounds-keeps (suc zero) ps q h = h
  merge_rounds-keeps (suc (suc n)) ps q h =
      merge_rounds-keeps (suc n) _ q (merge_round-keeps (suc (suc n)) ps q h)

  -- A round adds networks of its own length alone.
  entry-size :
      (n s b : ℕ) (backed : ℕ → Bool) (e : IpNet × Consolidable)
      → suc n ≤ f.width
      → IsEntry f n backed e
      → is_joined (is_net f b s) f e ≡ true
      → s ≡ n
  entry-size n s b backed e fits entry h =
      let test = sym (is_joined-entry f lawful n fits (is_net f b s) backed e entry) ∙ h in
      let (a, parsed, fit, size, same) = is_net-eq-true f b s (joined f e) (and_right _ _ test) in
      sym size ∙ entry.0

  merge_round-longer :
      (n s b : ℕ) (ps : List PrefixSpec)
      → n < f.width
      → n < s
      → all (is_plain f) ps ≡ true
      → any (is_net f b s) (merge_round f o n ps) ≡ true
      → any (is_net f b s) ps ≡ true
  unfolding merge_round
  merge_round-longer n s b ps h lt plain e =
      let m = add_consolidables f n (smaller_subnets n ps) [] in
      let new = joined_prefixes f (o.range n m) in
      let none_new : any (is_net f b s) new ≢ true = λ g.
        let (k, entry, test) =
          any-of_All (IsEntry f n _) (is_joined (is_net f b s) f) m
            (round_entries f lawful n h o fair ps plain)
            (sym (any-joined_prefixes (is_net f b s) f m)
              ∙ sym (any-joined_perm (is_net f b s) f (o.range n m) m (fair.range-perm n m))
              ∙ g) in
        omega (arith, entry-size n s b _ k h entry test) in
      ground (arith, any-append (is_net f b s) ps new, none_new)

  merge_rounds-longer :
      (n s b : ℕ) (ps : List PrefixSpec)
      → n < f.width
      → n < s
      → all (is_plain f) ps ≡ true
      → any (is_net f b s) (merge_rounds f o n ps) ≡ true
      → any (is_net f b s) ps ≡ true
  unfolding merge_rounds
  merge_rounds-longer zero s b ps h lt plain e = e
  merge_rounds-longer (suc zero) s b ps h lt plain e = e
  merge_rounds-longer (suc (suc n)) s b ps h lt plain e =
      merge_round-longer (suc (suc n)) s b ps h lt plain (
        merge_rounds-longer (suc n) s b _ (omega arith) (omega arith)
          (merge_round-is_plain f lawful (suc (suc n)) h o fair ps plain) e)

  -- The round of a length sees the halves that the later rounds leave.
  merge_top :
      (n l : ℕ) (ps : List PrefixSpec) (a b : ℕ)
      → suc (suc n) < f.width
      → l ≡ suc (suc n)
      → all (is_plain f) ps ≡ true
      → any (is_net f a (suc l)) (merge_rounds f o (suc (suc n)) ps) ≡ true
      → any (is_net f b (suc l)) (merge_rounds f o (suc (suc n)) ps) ≡ true
      → mask f.width l a ≡ mask f.width l b
      → a ≢ b
      → any
          (is_net f (mask f.width l a) l)
          (merge_rounds f o (suc n) (merge_round f o (suc (suc n)) ps))
        ≡ true
  merge_top n l ps a b h e plain ha hb same ne =
      let before : (c : ℕ)
          → any (is_net f c (suc l)) (merge_rounds f o (suc (suc n)) ps) ≡ true
          → any (is_net f c (suc l)) ps ≡ true =
        λ c. merge_rounds-longer (suc (suc n)) (suc l) c ps h (omega arith) plain in
      merge_rounds-keeps (suc n) _ _ (
        rw e (
          merge_round-parent f lawful (suc (suc n)) h o fair ps a b plain (rw e at (before a ha))
            (rw e at (before b hb)) (rw e at same) ne))

  pub merge_rounds-parent :
      (n l : ℕ) (ps : List PrefixSpec) (a b : ℕ)
      → n < f.width
      → 1 < l
      → l ≤ n
      → all (is_plain f) ps ≡ true
      → any (is_net f a (suc l)) (merge_rounds f o n ps) ≡ true
      → any (is_net f b (suc l)) (merge_rounds f o n ps) ≡ true
      → mask f.width l a ≡ mask f.width l b
      → a ≢ b
      → any (is_net f (mask f.width l a) l) (merge_rounds f o n ps) ≡ true
  unfolding merge_rounds
  merge_rounds-parent zero l ps a b h lo hi plain ha hb same ne = absurd (omega arith)
  merge_rounds-parent (suc zero) l ps a b h lo hi plain ha hb same ne = absurd (omega arith)
  merge_rounds-parent (suc (suc n)) l ps a b h lo hi plain ha hb same ne =
      let next = merge_round f o (suc (suc n)) ps in
      let plain' = merge_round-is_plain f lawful (suc (suc n)) h o fair ps plain in
      elim (Bool-cases (l == suc (suc n))) [
        | inl e ↦ merge_top n l ps a b h ((==_iff _ _).0 e) plain ha hb same ne
        | inr e ↦
            merge_rounds-parent (suc n) l next a b (omega arith) lo (ground arith) plain' ha hb same
              ne
      ]

  pub merge_rounds-is_plain :
      (n : ℕ) (ps : List PrefixSpec)
      → n < f.width
      → all (is_plain f) ps ≡ true
      → all (is_plain f) (merge_rounds f o n ps) ≡ true
  unfolding merge_rounds
  merge_rounds-is_plain zero ps h plain = plain
  merge_rounds-is_plain (suc zero) ps h plain = plain
  merge_rounds-is_plain (suc (suc n)) ps h plain =
      merge_rounds-is_plain (suc n) _ (omega arith)
        (merge_round-is_plain f lawful (suc (suc n)) h o fair ps plain)
