-- ===== src/Controller/Downstream/Pool/Tests.antt =====
-- Two workers and a zone that changes while the first reconciles it.
use edgecdnx_controller.Common.{
  ◌≡◌, refl, ℕ, zero, suc, false, arith, arith, [], ◌∷◌, none, some, text_eq, inr,
}
use edgecdnx_controller.Controller.Downstream.{Object}
use edgecdnx_controller.Controller.Downstream.Reconcile.{reconcile_key, ensure_namespace, upsert}
use edgecdnx_controller.Controller.Downstream.Mirror.{no_faults}
use edgecdnx_controller.Controller.Downstream.Agreement.{view, wanted}
use edgecdnx_controller.Controller.Downstream.Tests.{
  source, key, reconciler, never_equal, unequal, keeper, keeper-gone, empty,
}
use edgecdnx_controller.Controller.Downstream.Pool.{
  System, idle, got, holds, after_done, move, acted, changed, change, take, read_source, act,
  finish, Reach, start, later,
}
use edgecdnx_controller.Controller.Downstream.Pool.Lists.{lists}
use edgecdnx_controller.Controller.Downstream.Pool.Exclusion.{IsExclusive, Reach-IsExclusive}
use edgecdnx_controller.Controller.Downstream.Pool.Cover.{is_engaged, Reach-agrees}

abbrev World : Type 0
World = System lists ℕ ℕ

-- The zone before the change and behind it.
abbrev old : Object ℕ ℕ
old = record source { spec = 8 }

abbrev s0 : World
s0 = record { upstream = λ k. none; local = empty; queue = ([], []); workers = λ i. idle }

abbrev s1 : World
s1 = changed lists keeper reconciler 0 never_equal key (some old) s0

abbrev s2 : World
s2 = move lists 0 (got key) ([], key ∷ []) s1

abbrev s3 : World
s3 = move lists 0 (holds key (s2.upstream key)) s2.queue s2

abbrev s4 : World
s4 = changed lists keeper reconciler 0 never_equal key (some source) s3

abbrev s5 : World
s5 = acted lists keeper reconciler 0 never_equal 0 no_faults key (some old) s4

abbrev s6 : World
s6 = move lists 0 (after_done key none) (lists.finish key s5.queue) s5

abbrev s7 : World
s7 = move lists 1 (got key) ([], key ∷ []) s6

abbrev s8 : World
s8 = move lists 1 (holds key (s7.upstream key)) s7.queue s7

abbrev s9 : World
s9 = acted lists keeper reconciler 0 never_equal 1 no_faults key (some source) s8

abbrev s10 : World
s10 = move lists 1 (after_done key none) (lists.finish key s9.queue) s9

first_half : Reach lists keeper reconciler 0 never_equal s0 s4
unfolding text_eq
first_half =
    later
      (later (later (later start (change key (some old))) (take 0 key ([], key ∷ []) refl refl))
        (read_source 0 key refl))
      (change key (some source))

both : Reach lists keeper reconciler 0 never_equal s0 s8
unfolding text_eq reconcile_key ensure_namespace upsert
both =
    later
      (later
        (later (later first_half (act 0 key (some old) no_faults refl refl))
          (finish 0 key none refl))
        (take 1 key ([], key ∷ []) refl refl))
      (read_source 1 key refl)

whole : Reach lists keeper reconciler 0 never_equal s0 s10
unfolding text_eq reconcile_key ensure_namespace upsert
whole = later (later both (act 1 key (some source) no_faults refl refl)) (finish 1 key none refl)

Reach-IsExclusive_example : IsExclusive lists s8.workers s8.queue
Reach-IsExclusive_example = Reach-IsExclusive lists keeper reconciler 0 never_equal (λ i. refl) both

quiet : (i : ℕ) → is_engaged (s10.workers i) key ≡ false
unfolding reconcile_key ensure_namespace upsert text_eq
quiet zero = refl
quiet (suc zero) = refl
quiet (suc (suc i)) = ground arith

Reach-agrees_example : view reconciler s10.local key ≡ wanted reconciler (some source)
unfolding text_eq reconcile_key ensure_namespace upsert
Reach-agrees_example =
    Reach-agrees lists reconciler keeper (λ d. (refl, refl, refl)) (λ c d. (refl, refl, refl))
      (λ d. refl) (λ c d. refl) (λ d. refl) (λ c d. refl) keeper-gone 0 never_equal unequal key
      (λ i. refl) refl refl (inr refl) whole refl quiet
