-- ===== src/Redemption/Loop.antt =====
-- The loop of packages/lib-base/src/redemptionDetails.ts: how much is redeemed, and for how much
-- collateral.
use Prim.Native.Nat.{min}
use hliquity.Base.{
  ℕ, suc, ◌+◌, ◌-◌, ◌*◌, ◌≤◌, ◌<◌, ◌≡◌, refl, ◌∙◌, false, List, [], ◌∷◌, ok, err, Error, arith,
  Bool-cases, inl, inr, ◌⊎◌, ◌==◌,
}
use hliquity.Decimal
use hliquity.Decimal.{Decimal}
use hliquity.Decimal.Arith.{div_rounds_down, sub_negative}
use hliquity.Trove.Defs.{Trove}
use hliquity.Redemption.{Options, Progress, consume_trove, consume_troves}

-- Every debt covers the liquidation reserve.
abbrev pub Covered : Options → List Trove → Type 0
Covered o [] = Unit
Covered o (t ∷ ts) = (o.hchf_liquidation_reserve ≤ t.debt) × Covered o ts

-- The debt that can be redeemed.
pub redeemable : Options → List Trove → Decimal
redeemable o [] = 0
redeemable o (t ∷ ts) = (t.debt - o.hchf_liquidation_reserve) + redeemable o ts

abbrev pub count : List Trove → ℕ
count [] = 0
count (t ∷ ts) = suc (count ts)

-- From `s` the loop redeems `amount`, for collateral at the price, with at most a unit lost in the
-- rounding for each of `rounds` Troves.
pub record Redeems (o : Options) (s s' : Progress) (amount rounds : ℕ) : Type 0 where
  pub redeemed : s'.redeemed_hchf ≡ s.redeemed_hchf + amount
  pub remaining : s'.remaining_hchf + amount ≡ s.remaining_hchf
  pub worth :
      (o.price ≡ 0)
      ⊎ ((s'.received_hbar_before_fee * o.price
            ≤ s.received_hbar_before_fee * o.price + amount * Decimal.digits)
          × (s.received_hbar_before_fee * o.price + amount * Decimal.digits
              ≤ s'.received_hbar_before_fee * o.price + rounds * o.price))

-- What one round redeems.
taken : Options → Trove → Progress → Decimal
taken o t s = min (t.debt - o.hchf_liquidation_reserve) s.remaining_hchf

after : Options → Trove → Progress → Progress
unfolding taken
after o t s = record {
  remaining_hchf = s.remaining_hchf - taken o t s;
  received_hbar_before_fee = s.received_hbar_before_fee + Decimal.div (taken o t s) o.price;
  redeemed_hchf = s.redeemed_hchf + taken o t s;
}

consume_trove_lem :
    (o : Options) (t : Trove) (s : Progress)
    → o.hchf_liquidation_reserve ≤ t.debt
    → consume_trove o t s ≡ ok (after o t s)
unfolding consume_trove after Decimal.sub Decimal.add
consume_trove_lem o t s h = ground arith

after-Redeems : (o : Options) (t : Trove) (s : Progress) → Redeems o s (after o t s) (taken o t s) 1
unfolding after
after-Redeems o t s = record {
  redeemed = refl;
  remaining = unfold taken in omega arith;
  worth = elim (Bool-cases (o.price == 0)) [
    | inl free ↦ inl (ground arith)
    | inr priced ↦ inr (omega (arith, div_rounds_down (taken o t s) o.price (ground arith)))
  ];
}

Redeems-refl :
    (o : Options) (s : Progress) (amount rounds : ℕ) → amount ≡ 0 → Redeems o s s amount rounds
Redeems-refl o s amount rounds e = record {
  redeemed = omega arith;
  remaining = omega arith;
  worth = inr (rw e (omega arith));
}

Redeems-trans :
    (o : Options) (s u v : Progress) (a b n : ℕ)
    → Redeems o s u a 1
    → Redeems o u v b n
    → Redeems o s v (a + b) (suc n)
Redeems-trans o s u v a b n h k = record {
  redeemed = omega arith;
  remaining = omega arith;
  worth = elim h.worth [
    | inl free ↦ inl free
    | inr p ↦ elim k.worth [ inl free ↦ inl free | inr q ↦ inr (omega arith) ]
  ];
}

consume_troves_step :
    (o : Options) (t : Trove) (ts : List Trove) (s : Progress)
    → o.hchf_liquidation_reserve ≤ t.debt
    → Decimal.is_zero s.remaining_hchf ≡ false
    → consume_troves o (t ∷ ts) s ≡ consume_troves o ts (after o t s)
unfolding consume_troves
consume_troves_step o t ts s h more = rw (more, consume_trove_lem o t s h) refl

-- Where every debt covers the liquidation reserve the loop throws nothing. It redeems the requested
-- amount or all that can be redeemed, whichever is less, and leaves the rest. For a positive price
-- it pays the redeemed amount's worth, less at most one unit of collateral for each Trove.
pub consume_troves-Redeems :
    (o : Options) (ts : List Trove) (s : Progress)
    → Covered o ts
    → (s' : Progress) × (consume_troves o ts s ≡ ok s')
      × Redeems o s s' (min (redeemable o ts) s.remaining_hchf) (count ts)
consume_troves-Redeems o [] s h =
    (s, unfold consume_troves in refl, Redeems-refl o s _ _ (unfold redeemable in omega arith))
consume_troves-Redeems o (t ∷ ts) s (covered, h) =
    elim (Bool-cases (Decimal.is_zero s.remaining_hchf)) [
      | inl done ↦
          let none_left : s.remaining_hchf ≡ 0 = unfold Decimal.is_zero in ground arith in
          (s, unfold consume_troves in rw done refl, Redeems-refl o s _ _ (omega arith))
      | inr more ↦
          let (s', run, rest) = consume_troves-Redeems o ts (after o t s) h in
          let both = Redeems-trans o s (after o t s) s' _ _ _ (after-Redeems o t s) rest in
          let sum : taken o t s + min (redeemable o ts) (after o t s).remaining_hchf
              ≡ min (redeemable o (t ∷ ts)) s.remaining_hchf =
            unfold taken after redeemable in omega arith in
          (s', consume_troves_step o t ts s covered more ∙ run, rw sum at both)
    ]

-- A Trove that the loop reaches, with HCHF remaining, and whose debt is below the liquidation
-- reserve makes it throw.
pub consume_troves_uncovered :
    (o : Options) (t : Trove) (ts : List Trove) (s : Progress)
    → t.debt < o.hchf_liquidation_reserve
    → 0 < s.remaining_hchf
    → consume_troves o (t ∷ ts) s ≡ err Error.negative_decimal
unfolding consume_troves consume_trove Decimal.is_zero
consume_troves_uncovered o t ts s short more =
    ground (arith, sub_negative t.debt o.hchf_liquidation_reserve short)
