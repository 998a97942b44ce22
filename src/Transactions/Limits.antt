-- ===== src/Transactions/Limits.antt =====
-- The redemptions of packages/lib-hashgraph/src/HashgraphLiquity.ts: the limit of their rate, and how
-- a truncated redemption grows.
use hliquity.Base.{
  ℕ, ◌+◌, ◌≤◌, ◌<◌, ◌≡◌, refl, sym, ap, ◌∙◌, inl, inr, true, false, Option, none, some, List, ◌∷◌,
  ok, err, Error, >>=-then, Bool-cases, arith, ◌↔◌,
}
use mathlib.Core.Path.{subst}
use hliquity.Decimal
use hliquity.Decimal.{Decimal}
use hliquity.Decimal.Text.{Decimalish}
use hliquity.Decimal.Text
use hliquity.Fees
use hliquity.Fees.{Fees}
use hliquity.Fees.Bounds.{redemption_rate-le_one}
use hliquity.Transactions.{Parameter, uint256, populate, Sources, redeem_max_iterations}
use hliquity.Transactions.Redemptions.{
  RedemptionContext, RedemptionArguments, PopulatedRedemption, default_max_redemption_rate,
  max_rate_or_default, redemption_transaction, redemption_of, populate_redemption, with_defaults,
  resolve_max_rate, increase_amount_by_minimum_net_debt, populate_redeem_hchf, partial_hints,
}
use hliquity.Readings.Laws.{ok_inj}
use hliquity.Readings.Contracts.{get_total, get_price}
use hliquity.Readings.Contracts.Others.{get_fees}

-- The argument `_maxFeePercentage` of `redeemCollateral`, the seventh.
abbrev pub limit_of : List Parameter → Option ℕ
limit_of (a ∷ b ∷ c ∷ d ∷ e ∷ f ∷ uint256 limit ∷ rest) = some limit
limit_of parameters = none

-- Of a populated redemption: the amount that it redeems, and what is known of its limit.
default_limit :
    (context : RedemptionContext) (amount limit : Decimal)
    → default_max_redemption_rate context amount ≡ ok limit
    → (rate : Decimal) × (Fees.redemption_rate context.fees
          (Decimal.div amount context.total.debt)
          none
        ≡ ok rate)
      × (rate ≤ limit)
      × (limit ≤ Decimal.one)
unfolding default_max_redemption_rate Decimal.min Decimal.add
default_limit context amount limit h =
    >>=-then (Fees.redemption_rate context.fees (Decimal.div amount context.total.debt) none) _ h
      λ rate at_rate h0.
        let le = redemption_rate-le_one context.fees _ none at_rate in
        (rate, at_rate, ground arith, ground arith)

-- What a populated redemption carries.
pub record Carries (context : RedemptionContext) (redemption : PopulatedRedemption) : Type 0 where
  pub rate : Decimal
  pub limit : Decimal
  pub at_rate :
      Fees.redemption_rate context.fees
        (Decimal.div redemption.redeemable_hchf_amount context.total.debt)
        none
      ≡ ok rate
  pub at_limit : limit_of redemption.transaction.raw.function_parameters ≡ some limit
  pub allows : rate ≤ limit
  pub bounded : limit ≤ Decimal.one

carried :
    (context : RedemptionContext) (arguments : RedemptionArguments) (limit rate : Decimal)
    → Fees.redemption_rate context.fees
        (Decimal.div arguments.truncated_amount context.total.debt)
        none
      ≡ ok rate
    → rate ≤ limit
    → limit ≤ Decimal.one
    → Carries context (redemption_of context arguments limit)
unfolding redemption_of redemption_transaction populate
carried context arguments limit rate at_rate le one = record {
  rate = rate;
  limit = limit;
  at_rate = at_rate;
  at_limit = refl;
  allows = le;
  bounded = one;
}

populate_inv :
    (context : RedemptionContext) (arguments : RedemptionArguments)
    (redemption : PopulatedRedemption)
    → populate_redemption context arguments ≡ ok redemption
    → (limit : Decimal) × (max_rate_or_default context arguments arguments.max_redemption_rate
        ≡ ok limit)
      × (redemption_of context arguments limit ≡ redemption)
unfolding populate_redemption
populate_inv context arguments redemption h =
    >>=-then (max_rate_or_default context arguments arguments.max_redemption_rate) _ h
      λ limit at_limit h0. (limit, at_limit, ok_inj h0)

-- What is said of a redemption with the default limit.
abbrev pub IsSafe : RedemptionContext × PopulatedRedemption → Type 0
IsSafe (context, redemption) =
    Carries context redemption
    × (0 < redemption.redeemable_hchf_amount)
    × ((redemption.is_truncated ≡ true)
        ↔ (redemption.redeemable_hchf_amount < redemption.attempted_hchf_amount))

redemption_of-IsSafe :
    (context : RedemptionContext) (arguments : RedemptionArguments) (limit : Decimal)
    → default_max_redemption_rate context arguments.truncated_amount ≡ ok limit
    → 0 < arguments.truncated_amount
    → IsSafe (context, redemption_of context arguments limit)
unfolding redemption_of
redemption_of-IsSafe context arguments limit at_limit positive =
    let (rate, at_rate, le, one) =
      default_limit context arguments.truncated_amount limit at_limit in
    (
      carried context arguments limit rate at_rate le one,
      positive,
      (λ e. ground arith, λ lt. ground arith),
    )

populated-IsSafe :
    (context : RedemptionContext) (arguments : RedemptionArguments)
    (redemption : PopulatedRedemption)
    → arguments.max_redemption_rate ≡ none
    → 0 < arguments.truncated_amount
    → populate_redemption context arguments ≡ ok redemption
    → IsSafe (context, redemption)
populated-IsSafe context arguments redemption defaulted positive h =
    let (limit, at_limit, same) = populate_inv context arguments redemption h in
    let e : default_max_redemption_rate context arguments.truncated_amount ≡ ok limit =
      rw defaulted at at_limit in
    subst (λ r. IsSafe (context, r)) same (redemption_of-IsSafe context arguments limit e positive)

not_zero : {d : Decimal} → Decimal.is_zero d ≡ false → 0 < d
unfolding Decimal.is_zero
not_zero h = ground arith

-- A redemption that is populated with the default limit redeems a positive amount, is truncated
-- exactly if that is less than what was asked for, and its limit allows the current redemption rate
-- of the amount and never exceeds 100%.
pub redeem-IsSafe :
    (sources : Sources) (amount : Decimalish) (context : RedemptionContext)
    (redemption : PopulatedRedemption)
    → populate_redeem_hchf sources amount none ≡ ok (context, redemption)
    → IsSafe (context, redemption)
unfolding populate_redeem_hchf
redeem-IsSafe sources amount context redemption h =
    >>=-then (Text.from sources.big amount) _ h λ attempted at_attempted h0.
      >>=-then (get_fees sources.liquity none) _ h0 λ fees at_fees h1.
        >>=-then (get_total sources.liquity none) _ h1 λ total at_total h2.
          >>=-then (get_price sources.liquity none) _ h2 λ price at_price h3.
            >>=-then (sources.get_redemption_hints attempted price redeem_max_iterations) _ h3
              λ hints at_hints h4.
                >>=-then (partial_hints sources hints.partial_redemption_hint_nicr) _ h4
                  λ partial at_partial h5.
                    elim (Bool-cases (Decimal.is_zero hints.truncated_hchf_amount)) [
                      | inl zero_amount ↦ let h6 = rw zero_amount at h5 in cc
                      | inr some_amount ↦
                          let h6 = rw some_amount at h5 in
                          let made : RedemptionContext = record {
                            fees = fees;
                            total = total;
                            first_redemption_hint = hints.first_redemption_hint;
                          } in
                          let arguments : RedemptionArguments = record {
                            attempted_hchf_amount = attempted;
                            max_redemption_rate = none;
                            truncated_amount = hints.truncated_hchf_amount;
                            upper_hint = partial.0;
                            lower_hint = partial.1;
                            hint_nicr = hints.partial_redemption_hint_nicr;
                          } in
                          >>=-then (populate_redemption made arguments) (λ r. ok (made, r)) h6
                            λ populated at_populated h7. subst IsSafe (ok_inj h7) (
                              populated-IsSafe made arguments populated refl (not_zero some_amount)
                                at_populated)
                    ]

-- With the defaults nothing is truncated.
whole_again :
    (context : RedemptionContext) (amount : Decimal) (max_rate : Option Decimal) (limit : Decimal)
    → (redemption_of context (with_defaults amount max_rate) limit).is_truncated ≡ false
unfolding redemption_of
whole_again context amount max_rate limit = ground arith

-- A truncated redemption can be increased once: the larger one asks for the minimum net debt more,
-- is not truncated, and cannot be increased again. A redemption that is not truncated cannot be
-- increased at all.
pub increase_once :
    (sources : Sources) (context : RedemptionContext) (redemption bigger : PopulatedRedemption)
    (new_rate : Option Decimalish)
    → increase_amount_by_minimum_net_debt sources context redemption new_rate ≡ ok bigger
    → (redemption.is_truncated ≡ true)
      × (bigger.redeemable_hchf_amount
          ≡ redemption.redeemable_hchf_amount + sources.liquity.constants.hchf_minimum_net_debt)
      × (bigger.attempted_hchf_amount ≡ bigger.redeemable_hchf_amount)
      × ((another_rate : Option Decimalish)
          → increase_amount_by_minimum_net_debt sources context bigger another_rate
            ≡ err Error.not_truncated)
unfolding increase_amount_by_minimum_net_debt
increase_once sources context redemption bigger new_rate h =
    elim (Bool-cases redemption.is_truncated) [
      | inr whole ↦ let h' = rw whole at h in cc
      | inl truncated ↦
          let h' = rw truncated at h in
          >>=-then (resolve_max_rate sources redemption.max_redemption_rate new_rate) _ h'
            λ rate at_rate h0.
              let (limit, at_limit, same) = populate_inv context _ bigger h0 in
              (
                truncated,
                sym (ap (λ r. r.redeemable_hchf_amount) same),
                ap (λ r. r.attempted_hchf_amount) (sym same)
                    ∙ ap (λ r. r.redeemable_hchf_amount) same,
                λ another_rate. rw (← same, whole_again context _ rate limit) refl,
              )
    ]
