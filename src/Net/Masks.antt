-- ===== src/Net/Masks.antt =====
-- Arithmetic of prefixes: clearing host bits, and the two halves of a network.
use native.Mathlib.Nat.{div-div-eq-div-mul, mul-div_cancel, one-le-pow, pow-suc, add-zero}
use edgecdnx_controller.Common.{
  ℕ, zero, suc, ◌+◌, ◌-◌, ◌*◌, ◌/◌, ◌^◌, ◌≤◌, ◌<◌, ◌≡◌, sym, ◌∙◌, ap, ◌≢◌, ◌⊎◌, inl, inr, arith,
}
use edgecdnx_controller.Net.{mask}

pub pow_pos : (k : ℕ) → 0 < 2 ^ k
pow_pos k = one-le-pow k 2 (omega arith)

-- Two addresses lie in one network of a size when they agree on the bits in front.
pub div-eq_of_mask : (w n a b : ℕ) → mask w n a ≡ mask w n b → a / 2 ^ (w - n) ≡ b / 2 ^ (w - n)
unfolding mask
div-eq_of_mask w n a b h =
    sym (mul-div_cancel _ (pow_pos (w - n)))
    ∙ ap (λ (t : ℕ). t / 2 ^ (w - n)) h
    ∙ mul-div_cancel _ (pow_pos (w - n))

pub mask-eq_of_div : (w n a b : ℕ) → a / 2 ^ (w - n) ≡ b / 2 ^ (w - n) → mask w n a ≡ mask w n b
unfolding mask
mask-eq_of_div w n a b h = ap (λ (t : ℕ). t * 2 ^ (w - n)) h

pub mask-mask : (w n a : ℕ) → mask w n (mask w n a) ≡ mask w n a
unfolding mask
mask-mask w n a = ap (λ (t : ℕ). t * 2 ^ (w - n)) (mul-div_cancel _ (pow_pos (w - n)))

-- One bit less.
div-step : (w n a : ℕ) → n < w → a / 2 ^ (w - n) ≡ a / 2 ^ (w - suc n) / 2
div-step w n a h =
    let e : w - n ≡ suc (w - suc n) = omega arith in
    rw e (rw (pow-suc 2 (w - suc n)) (sym (div-div-eq-div-mul a (2 ^ (w - suc n)) 2)))

same_half : (p q r : ℕ) → p / 2 ≡ q / 2 → p / 2 ≡ r / 2 → p ≢ q → (r ≡ p) ⊎ (r ≡ q)
same_half p q r e g d = grind arith

-- Two addresses of one network, in different halves: any third address lies in one of the two.
pub half_cases :
    (w n a b x : ℕ)
    → n < w
    → mask w n a ≡ mask w n b
    → mask w n a ≡ mask w n x
    → mask w (suc n) a ≢ mask w (suc n) b
    → (mask w (suc n) x ≡ mask w (suc n) a) ⊎ (mask w (suc n) x ≡ mask w (suc n) b)
half_cases w n a b x h ab ax ne =
    let qa = a / 2 ^ (w - suc n) in
    let qb = b / 2 ^ (w - suc n) in
    let qx = x / 2 ^ (w - suc n) in
    let e : qa / 2 ≡ qb / 2 =
      sym (div-step w n a h) ∙ div-eq_of_mask w n a b ab ∙ div-step w n b h in
    let g : qa / 2 ≡ qx / 2 =
      sym (div-step w n a h) ∙ div-eq_of_mask w n a x ax ∙ div-step w n x h in
    let d : qa ≢ qb = λ q. ne (mask-eq_of_div w (suc n) a b q) in pick (same_half qa qb qx e g d)
  where
    pick :
        (x / 2 ^ (w - suc n) ≡ a / 2 ^ (w - suc n)) ⊎ (x / 2 ^ (w - suc n) ≡ b / 2 ^ (w - suc n))
        → (mask w (suc n) x ≡ mask w (suc n) a) ⊎ (mask w (suc n) x ≡ mask w (suc n) b)
    pick (inl e) = inl (mask-eq_of_div w (suc n) x a e)
    pick (inr e) = inr (mask-eq_of_div w (suc n) x b e)

-- A longer prefix determines a shorter one.
pub mask-eq_of_longer :
    (w n k a b : ℕ) → n + k ≤ w → mask w (n + k) a ≡ mask w (n + k) b → mask w n a ≡ mask w n b
mask-eq_of_longer w n zero a b h e = rw add-zero at e
mask-eq_of_longer w n (suc k) a b h e = mask-eq_of_longer w n k a b (omega arith) (
    let s : n + suc k ≡ suc (n + k) = omega arith in
    mask-eq_of_div w (n + k) a b (
      div-step w (n + k) a (omega arith)
      ∙ ap (λ (t : ℕ). t / 2) (div-eq_of_mask w (suc (n + k)) a b (rw s at e))
      ∙ sym (div-step w (n + k) b (omega arith))))

pub mask-eq_of_le :
    (w n m a b : ℕ) → n ≤ m → m ≤ w → mask w m a ≡ mask w m b → mask w n a ≡ mask w n b
mask-eq_of_le w n m a b h k e =
    let s : m ≡ n + (m - n) = omega arith in
    mask-eq_of_longer w n (m - n) a b (omega arith) (rw (← s) e)

-- The network of a network's base, at a shorter length, is that of its addresses.
pub mask-mask_le : (w n m a : ℕ) → n ≤ m → m ≤ w → mask w n (mask w m a) ≡ mask w n a
mask-mask_le w n m a h k = mask-eq_of_le w n m (mask w m a) a h k (mask-mask w m a)
