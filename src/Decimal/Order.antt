-- ===== src/Decimal/Order.antt =====
-- Consequences of the laws: the order, sums and differences, products, and integers.
use quant_bot.Prelude.{
  ℕ, zero, suc, ◌≡◌, refl, sym, ap, ◌∙◌, ◌⊎◌, inl, inr, true, false, arith, Bool-cases,
}
use quant_bot.Prelude.Int.{ℤ, pos, negsuc, ◌+ℤ◌, ◌≤ℤ◌, ◌<ℤ◌, ◌-ℤ◌, int_laws}
use quant_bot.Decimal.{Decimal, IsDecimal, ◌≺◌, ◌≼◌}

module _ {ℓ} {D : Type ℓ} ⦃d : Decimal D⦄ (laws : IsDecimal D) where
  open d use {zero_dec, of_int, add, sub, mul, neg, abs, less_than, is_zero, equal}
  open laws use {
    lt_irrefl, lt_trans, lt_total, add_comm, add_assoc, add-zero, add-neg, sub-eq, mul_comm,
    mul_assoc, mul-add, mul-one, add-lt, mul_pos, of_int-zero, of_int-one_pos, of_int-add, abs-eq,
    is_zero-eq, equal_iff,
  }

  pub le_of_lt : (a b : D) → a ≺ b → a ≼ b
  le_of_lt a b h = elim (Bool-cases (less_than b a)) [
    | inl l ↦ cc (lt_irrefl a, lt_trans a b a h l)
    | inr e ↦ e
  ]

  pub le_refl : (a : D) → a ≼ a
  le_refl a = lt_irrefl a

  pub lt_or_le : (a b : D) → (a ≺ b) ⊎ (b ≼ a)
  lt_or_le a b = Bool-cases (less_than a b)

  pub lt_of_le_of_lt : (a b c : D) → a ≼ b → b ≺ c → a ≺ c
  lt_of_le_of_lt a b c p q = elim (Bool-cases (less_than a b)) [
    | inl l ↦ lt_trans a b c l q
    | inr e ↦ rw (lt_total a b p e) q
  ]

  pub lt_of_lt_of_le : (a b c : D) → a ≺ b → b ≼ c → a ≺ c
  lt_of_lt_of_le a b c p q = elim (Bool-cases (less_than b c)) [
    | inl l ↦ lt_trans a b c p l
    | inr e ↦ rw (← lt_total b c q e) p
  ]

  pub le_trans : (a b c : D) → a ≼ b → b ≼ c → a ≼ c
  le_trans a b c p q = elim (Bool-cases (less_than c a)) [
    | inl l ↦ cc (lt_irrefl c, lt_of_lt_of_le c a c l (le_trans_aux a b c p q l))
    | inr e ↦ e
  ]
    where
      le_trans_aux : (a b c : D) → a ≼ b → b ≼ c → c ≺ a → a ≼ c
      le_trans_aux a b c p q l = cc (lt_irrefl b, lt_of_le_of_lt b c b q (lt_of_lt_of_le c a b l p))

  pub zero-add : (a : D) → add zero_dec a ≡ a
  zero-add a = add_comm zero_dec a ∙ add-zero a

  pub add_left_comm : (a b c : D) → add a (add b c) ≡ add b (add a c)
  add_left_comm a b c = sym (add_assoc a b c) ∙ ap (λ t. add t c) (add_comm a b) ∙ add_assoc b a c

  pub add_cancel : (a b c : D) → add a c ≡ add b c → a ≡ b
  add_cancel a b c e = sym (drop_neg a) ∙ ap (λ t. add t (neg c)) e ∙ drop_neg b
    where
      drop_neg : (x : D) → add (add x c) (neg c) ≡ x
      drop_neg x = rw (add_assoc x c (neg c), add-neg c) (add-zero x)

  pub sub-add : (a b : D) → add (sub a b) b ≡ a
  sub-add a b = rw (sub-eq a b, add_assoc a (neg b) b, add_comm (neg b) b, add-neg b) (add-zero a)

  pub add-sub : (a b : D) → sub (add a b) b ≡ a
  add-sub a b = rw (sub-eq (add a b) b, add_assoc a b (neg b), add-neg b) (add-zero a)

  pub sub_self : (a : D) → sub a a ≡ zero_dec
  sub_self a = sub-eq a a ∙ add-neg a

  pub add_le : (a b c : D) → a ≼ b → add a c ≼ add b c
  add_le a b c h = elim (Bool-cases (less_than a b)) [
    | inl l ↦ le_of_lt (add a c) (add b c) (add-lt a b c l)
    | inr e ↦ rw (lt_total a b h e) (le_refl (add b c))
  ]

  pub add_le_add : (a b c e : D) → a ≼ b → c ≼ e → add a c ≼ add b e
  add_le_add a b c e p q =
      le_trans (add a c) (add b c) (add b e) (add_le a b c p)
        (rw (add_comm b c, add_comm b e) (add_le c e b q))

  pub le_of_add_le : (a b c : D) → add a c ≼ add b c → a ≼ b
  le_of_add_le a b c h = elim (Bool-cases (less_than b a)) [
    | inl l ↦ cc (add-lt b a c l)
    | inr e ↦ e
  ]

  pub lt_of_add_lt : (a b c : D) → add a c ≺ add b c → a ≺ b
  lt_of_add_lt a b c h = elim (Bool-cases (less_than a b)) [
    | inl l ↦ l
    | inr e ↦ cc (add_le b a c e)
  ]

  pub sub_nonneg : (a b : D) → a ≼ b → zero_dec ≼ sub b a
  sub_nonneg a b h = le_of_add_le zero_dec (sub b a) a (rw (zero-add a, sub-add b a) h)

  pub sub_pos : (a b : D) → a ≺ b → zero_dec ≺ sub b a
  sub_pos a b h = lt_of_add_lt zero_dec (sub b a) a (rw (zero-add a, sub-add b a) h)

  pub le_of_sub_nonneg : (a b : D) → zero_dec ≼ sub b a → a ≼ b
  le_of_sub_nonneg a b h =
      let step : add zero_dec a ≼ add (sub b a) a = add_le zero_dec (sub b a) a h in
      rw (zero-add a, sub-add b a) at step

  pub sub_le : (a b : D) → zero_dec ≼ b → sub a b ≼ a
  sub_le a b h = le_of_add_le (sub a b) a b (
      rw (sub-add a b) (
        let step : add zero_dec a ≼ add b a = add_le zero_dec b a h in
        rw (zero-add a, add_comm b a) at step))

  pub sub_lt : (a b : D) → zero_dec ≺ b → sub a b ≺ a
  sub_lt a b h = lt_of_add_lt (sub a b) a b (
      rw (sub-add a b) (
        let step : add zero_dec a ≺ add b a = add-lt zero_dec b a h in
        rw (zero-add a, add_comm b a) at step))

  pub lt-add : (a b : D) → zero_dec ≺ b → a ≺ add a b
  lt-add a b h =
      let step : add zero_dec a ≺ add b a = add-lt zero_dec b a h in
      rw (zero-add a, add_comm b a) at step

  pub le-add : (a b : D) → zero_dec ≼ b → a ≼ add a b
  le-add a b h =
      let step : add zero_dec a ≼ add b a = add_le zero_dec b a h in
      rw (zero-add a, add_comm b a) at step

  pub add_nonneg : (a b : D) → zero_dec ≼ a → zero_dec ≼ b → zero_dec ≼ add a b
  add_nonneg a b p q = le_trans zero_dec a (add a b) p (le-add a b q)

  pub mul-zero : (a : D) → mul a zero_dec ≡ zero_dec
  mul-zero a =
      add_cancel (mul a zero_dec) zero_dec (mul a zero_dec)
        (rw (← mul-add a zero_dec zero_dec, add-zero zero_dec, zero-add (mul a zero_dec)))

  pub zero-mul : (a : D) → mul zero_dec a ≡ zero_dec
  zero-mul a = mul_comm zero_dec a ∙ mul-zero a

  pub add-mul : (a b c : D) → mul (add a b) c ≡ add (mul a c) (mul b c)
  add-mul a b c = rw (mul_comm (add a b) c, mul_comm a c, mul_comm b c) (mul-add c a b)

  pub sub-mul : (a b c : D) → mul (sub a b) c ≡ sub (mul a c) (mul b c)
  sub-mul a b c =
      add_cancel (mul (sub a b) c) (sub (mul a c) (mul b c)) (mul b c)
        (rw (← add-mul (sub a b) b c, sub-add a b, sub-add (mul a c) (mul b c)))

  pub mul_nonneg : (a b : D) → zero_dec ≼ a → zero_dec ≼ b → zero_dec ≼ mul a b
  mul_nonneg a b p q = elim (Bool-cases (less_than zero_dec a)) [
    | inl la ↦ elim (Bool-cases (less_than zero_dec b)) [
      | inl lb ↦ le_of_lt zero_dec (mul a b) (mul_pos a b la lb)
      | inr eb ↦ rw (← lt_total zero_dec b q eb, mul-zero a) (le_refl zero_dec)
    ]
    | inr ea ↦ rw (← lt_total zero_dec a p ea, zero-mul b) (le_refl zero_dec)
  ]

  pub mul_le : (a b c : D) → a ≼ b → zero_dec ≼ c → mul a c ≼ mul b c
  mul_le a b c h p =
      le_of_sub_nonneg (mul a c) (mul b c)
        (rw (← sub-mul b a c) (mul_nonneg (sub b a) c (sub_nonneg a b h) p))

  pub mul_lt : (a b c : D) → a ≺ b → zero_dec ≺ c → mul a c ≺ mul b c
  mul_lt a b c h p = lt_of_add_lt (mul a c) (mul b c) (neg (mul a c)) (
      rw (← sub-eq (mul b c) (mul a c), add-neg (mul a c), ← sub-mul b a c)
        (mul_pos (sub b a) c (sub_pos a b h) p))

  pub le_of_mul_le : (a b c : D) → mul a c ≼ mul b c → zero_dec ≺ c → a ≼ b
  le_of_mul_le a b c h p = elim (Bool-cases (less_than b a)) [
    | inl l ↦ cc (mul_lt b a c l p)
    | inr e ↦ e
  ]

  pub lt_of_mul_lt : (a b c : D) → mul a c ≺ mul b c → zero_dec ≼ c → a ≺ b
  lt_of_mul_lt a b c h p = elim (Bool-cases (less_than a b)) [
    | inl l ↦ l
    | inr e ↦ cc (mul_le b a c e p)
  ]

  pub is_zero_iff : (a : D) → is_zero a ≡ true → a ≡ zero_dec
  is_zero_iff a h = (equal_iff a zero_dec).0 (sym (is_zero-eq a) ∙ h)

  pub is_zero-zero : is_zero zero_dec ≡ true
  is_zero-zero = is_zero-eq zero_dec ∙ (equal_iff zero_dec zero_dec).1 refl

  pub ne_zero_of_pos : (a : D) → zero_dec ≺ a → is_zero a ≡ false
  ne_zero_of_pos a h = elim (Bool-cases (is_zero a)) [
    | inl e ↦ let same : a ≡ zero_dec = is_zero_iff a e in cc (lt_irrefl zero_dec, same, h)
    | inr e ↦ e
  ]

  of_int-pos_nonneg : (n : ℕ) → zero_dec ≼ of_int (pos n)
  of_int-pos_nonneg zero = rw of_int-zero (le_refl zero_dec)
  of_int-pos_nonneg (suc n) =
      let split : pos (suc n) ≡ pos n +ℤ pos 1 = omega int_laws in
      rw (split, of_int-add (pos n) (pos 1))
        (add_nonneg (of_int (pos n)) (of_int (pos 1)) (of_int-pos_nonneg n)
          (le_of_lt zero_dec (of_int (pos 1)) of_int-one_pos))

  pub of_int_pos : (n : ℕ) → zero_dec ≺ of_int (pos (suc n))
  of_int_pos n =
      let split : pos (suc n) ≡ pos n +ℤ pos 1 = omega int_laws in
      rw (split, of_int-add (pos n) (pos 1))
        (lt_of_le_of_lt zero_dec (of_int (pos n)) (add (of_int (pos n)) (of_int (pos 1)))
          (of_int-pos_nonneg n) (lt-add (of_int (pos n)) (of_int (pos 1)) of_int-one_pos))

  pub of_int_nonneg : (m : ℤ) → pos 0 ≤ℤ m → zero_dec ≼ of_int m
  of_int_nonneg (pos n) h = of_int-pos_nonneg n
  of_int_nonneg (negsuc n) h = absurd (omega arith)

  pub of_int_positive : (m : ℤ) → pos 0 <ℤ m → zero_dec ≺ of_int m
  of_int_positive (pos zero) h = absurd (omega arith)
  of_int_positive (pos (suc n)) h = of_int_pos n
  of_int_positive (negsuc n) h = absurd (omega arith)

  pub of_int_le : (m n : ℤ) → m ≤ℤ n → of_int m ≼ of_int n
  of_int_le m n h =
      let split : n ≡ m +ℤ (n -ℤ m) = omega int_laws in
      rw (split, of_int-add m (n -ℤ m))
        (le-add (of_int m) (of_int (n -ℤ m)) (of_int_nonneg (n -ℤ m) (omega int_laws)))

  pub of_int_lt : (m n : ℤ) → m <ℤ n → of_int m ≺ of_int n
  of_int_lt m n h =
      let split : n ≡ m +ℤ (n -ℤ m) = omega int_laws in
      rw (split, of_int-add m (n -ℤ m))
        (lt-add (of_int m) (of_int (n -ℤ m)) (of_int_positive (n -ℤ m) (omega int_laws)))

  pub abs_nonneg : (a : D) → zero_dec ≼ abs a
  abs_nonneg a = elim (Bool-cases (less_than a zero_dec)) [
    | inl l ↦
        rw (abs-eq a, l)
          (le_of_add_le zero_dec (neg a) a
            (rw (zero-add a, add_comm (neg a) a, add-neg a) (le_of_lt a zero_dec l)))
    | inr e ↦ rw (abs-eq a, e) e
  ]

  pub sub_anti : (p a b : D) → a ≼ b → sub p b ≼ sub p a
  sub_anti p a b h =
      let step : add a (sub p a) ≼ add b (sub p a) = add_le a b (sub p a) h in
      le_of_add_le (sub p b) (sub p a) b
        (rw (sub-add p b) (rw (add_comm a (sub p a), sub-add p a, add_comm b (sub p a)) at step))
