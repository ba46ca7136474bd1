-- ===== src/Requests/Laws/Rate.antt =====
-- core/request-queue.ts: how fast `TokenBucket` gives out tokens.
use native.Mathlib.Nat.{zero-mul, suc-mul, add-mul}
use ninthwave.Prelude.{
  ℕ, suc, ◌+◌, ◌-◌, ◌*◌, ◌≤◌, List, [], ◌∷◌, ◌≡◌, refl, sym, ap, ◌∙◌, arith, Option, none, some,
}
use ninthwave.Requests.Bucket.{Bucket, refill, take_token}

-- The tokens given out at the readings of the clock, one at most at each, and the bucket after them.
unfoldable pub give_out : List ℕ → Bucket → ℕ × Bucket
give_out [] b = (0, b)
give_out (now ∷ later) b = elim (take_token (refill now b)) [
  | none ↦ give_out later (refill now b)
  | some b' ↦ let r = give_out later b' in (suc r.0, r.1)
]

elapsed_mul : (t now r : ℕ) → t ≤ now → (now - t) * r + t * r ≡ now * r
elapsed_mul t now r h = sym (add-mul (now - t) t r) ∙ ap (λ k. k * r) (omega arith)

-- What a refill adds is at most the rate times the time that has passed.
refill-bound :
    (now : ℕ) (b : Bucket)
    → ((refill now b).tokens + b.last_refill * b.rate
        ≤ b.tokens + (refill now b).last_refill * b.rate)
      × ((refill now b).rate ≡ b.rate)
      × ((refill now b).unit ≡ b.unit)
      × ((refill now b).burst_size ≡ b.burst_size)
unfolding refill
refill-bound now b = ground (arith, elapsed_mul b.last_refill now b.rate)

take_token-bound :
    (b b' : Bucket)
    → take_token b ≡ some b'
    → (b'.tokens + b.unit ≡ b.tokens)
      × (b'.last_refill ≡ b.last_refill)
      × (b'.rate ≡ b.rate)
      × (b'.unit ≡ b.unit)
unfolding take_token
take_token-bound b b' h = ground arith

-- What is given out from a bucket is bounded by its tokens and by the time that passes.
abbrev IsBounded : Bucket → ℕ → ℕ × Bucket → Type 0
IsBounded b extra r =
    (r.0 * b.unit + extra + (r.1.tokens + b.last_refill * b.rate)
      ≤ b.tokens + r.1.last_refill * b.rate)
    × (r.1.rate ≡ b.rate)

-- A step from `b` to `c` that gives out `extra`, before the rest.
IsBounded-step :
    (b c : Bucket) (extra : ℕ) (r : ℕ × Bucket)
    → c.rate ≡ b.rate
    → c.unit ≡ b.unit
    → c.tokens + extra + b.last_refill * b.rate ≤ b.tokens + c.last_refill * b.rate
    → IsBounded c 0 r
    → IsBounded b extra r
IsBounded-step b c extra r e u h ih = (
  omega (
    arith,
    ih.0,
    ap (λ k. r.0 * k) u,
    ap (λ k. c.last_refill * k) e,
    ap (λ k. r.1.last_refill * k) e,
  ),
  ih.1 ∙ e,
)

give_out-IsBounded : (readings : List ℕ) (b : Bucket) → IsBounded b 0 (give_out readings b)
unfolding give_out
give_out-IsBounded [] b = (omega (arith, zero-mul b.unit), refl)
give_out-IsBounded (now ∷ later) b =
    from (take_token (refill now b)) refl (give_out-IsBounded later)
  where
    Result : Option Bucket → ℕ × Bucket
    Result none = give_out later (refill now b)
    Result (some b') = (suc (give_out later b').0, (give_out later b').1)

    from :
        (o : Option Bucket)
        → take_token (refill now b) ≡ o
        → ((c : Bucket) → IsBounded c 0 (give_out later c))
        → IsBounded b 0 (Result o)
    from none e ih =
        let f = refill-bound now b in
        IsBounded-step b (refill now b) 0 (give_out later (refill now b)) f.1 f.2 (omega arith)
          (ih (refill now b))
    from (some b') e ih =
        let f = refill-bound now b in
        let g = take_token-bound (refill now b) b' e in
        let r =
          IsBounded-step b b' b.unit (give_out later b') (g.2 ∙ f.1) (g.3 ∙ f.2)
            (omega (arith, ap (λ k. k * b.rate) g.1)) (ih b') in
        (omega (arith, r.0, suc-mul (give_out later b').0 b.unit), r.1)

-- The rate limit, in exact arithmetic: with no budget update between, the tokens given out are at most those that were there
-- and those that the rate yields in the time that passes.
pub give_out-bounded :
    (readings : List ℕ) (b : Bucket)
    → (give_out readings b).0 * b.unit + ((give_out readings b).1.tokens + b.last_refill * b.rate)
      ≤ b.tokens + (give_out readings b).1.last_refill * b.rate
give_out-bounded readings b = omega (arith, (give_out-IsBounded readings b).0)
