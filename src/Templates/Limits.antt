-- ===== src/Templates/Limits.antt =====
-- The values of `Factorial` and `Fibonacci` of template.h, and the last ones that an `int` holds.
use c_study.Templates.{factorial, int_constant}
use c_study.Prelude.{
  ℕ, zero, suc, ◌+◌, ◌-◌, ◌*◌, ◌^◌, ◌≤◌, ◌<◌, ◌≡◌, refl, ◌∙◌, none, some, leb, if◌then◌else◌, arith,
  subst, Bool-cases, inl, inr, false, leb→le,
}
use c_study.Prelude.Int.{pos, negsuc, ◌*ℤ◌}
use c_study.Prelude.Options.{◌>>=◌}

-- The numbers themselves, with no limit.
unfoldable pub fib : ℕ → ℕ
fib zero = 0
fib (suc zero) = 1
fib (suc (suc n)) = fib (suc n) + fib n

unfoldable pub fact : ℕ → ℕ
fact zero = 1
fact (suc n) = suc n * fact n

-- Two neighbours at once, which computes in linear time.
unfoldable fib_pair : ℕ → ℕ × ℕ
fib_pair zero = (0, 1)
fib_pair (suc n) = let p = fib_pair n in (p.1, p.1 + p.0)

-- What grows at each step is monotone.
grows : (f : ℕ → ℕ) → ((n : ℕ) → f n ≤ f (suc n)) → (n k : ℕ) → f n ≤ f (k + n)
grows f step n zero = grind arith
grows f step n (suc k) = let next = step (k + n) in let rest = grows f step n k in grind arith

mono : (f : ℕ → ℕ) → ((n : ℕ) → f n ≤ f (suc n)) → (a b : ℕ) → a ≤ b → f a ≤ f b
mono f step a b h = subst (λ m. f a ≤ f m) (omega arith) (grows f step a (b - a))

-- A constant that is in range, or not.
constant_in : (m : ℕ) → m < 2 ^ 31 → int_constant (pos m) ≡ some (pos m)
constant_in m h = ground arith

constant_out : (m : ℕ) → 2 ^ 31 ≤ m → int_constant (pos m) ≡ none
constant_out m h = ground arith

leb-false→lt : (a b : ℕ) → leb a b ≡ false → suc b ≤ a
leb-false→lt a b h = ground arith

-- For a number that grows, the test of the value is a test of the argument.
constant-last :
    (f : ℕ → ℕ) (last : ℕ)
    → ((m : ℕ) → f m ≤ f (suc m))
    → f last < 2 ^ 31
    → 2 ^ 31 ≤ f (suc last)
    → (n : ℕ) → int_constant (pos (f n)) ≡ (if leb n last then some (pos (f n)) else none)
constant-last f last step lo hi n = elim (Bool-cases (leb n last)) [
  | inl e ↦
      let below = mono f step n last (leb→le n last e) in rw (e) (constant_in (f n) (omega arith))
  | inr e ↦
      let above = mono f step (suc last) n (leb-false→lt n last e) in
      rw (e) (constant_out (f n) (omega arith))
]

-- The same for the products.
fact_12 : fact 12 ≡ 479001600
unfolding fact
fact_12 = refl

fact_13 : fact 13 ≡ 6227020800
unfolding fact
fact_13 = refl

product_le : (a b : ℕ) → b ≤ suc a * b
product_le a b = grind arith

fact-suc : (n : ℕ) → fact n ≤ fact (suc n)
unfolding fact
fact-suc n = product_le n (fact n)

mul_constants :
    (a b : ℕ)
    → (int_constant (pos b) >>= λ v. int_constant (pos (suc a) *ℤ v))
      ≡ int_constant (pos (suc a * b))
unfolding ◌*ℤ◌
mul_constants a b = let more = product_le a b in ground arith

factorial-fact : (depth n : ℕ) → n < depth → factorial depth (pos n) ≡ int_constant (pos (fact n))
unfolding factorial fact
factorial-fact zero n lt = ground arith
factorial-fact (suc depth) zero lt = refl
factorial-fact (suc depth) (suc n) lt =
    rw (factorial-fact depth n (omega arith)) (mul_constants n (fact n))

-- `Factorial<N>` with `N` from 0 to 12 is the factorial, and does not compile from 13 on. The compiler's depth
-- is above `N`.
factorial-last :
    (depth n : ℕ)
    → n < depth
    → factorial depth (pos n) ≡ (if leb n 12 then some (pos (fact n)) else none)
factorial-last depth n lt =
    factorial-fact depth n lt
    ∙ constant-last fact 12 fact-suc (rw (fact_12) (omega arith)) (rw (fact_13) (omega arith)) n

-- A negative argument compiles at no depth.
factorial-negative : (depth n : ℕ) → factorial depth (negsuc n) ≡ none
unfolding factorial
factorial-negative zero n = refl
factorial-negative (suc depth) n = rw (factorial-negative depth (suc n)) refl
