-- ===== src/Token/Conservation.antt =====
-- The invariant of the token contract: sound rows, and each supply is the sum of the balances.
use ux_contracts.Prelude.{
  ℕ, ◌≡◌, refl, false, some, ◌==◌, if◌then◌else◌, arith, ℤ, ◌≤ℤ◌, ◌+ℤ◌, ◌-ℤ◌, Option-cases,
  Bool-cases, inl, inr, int_laws, String, ◌∙◌, ap, subst, sym, ==_iff, ◌≢◌,
}
use ux_contracts.Chain.Action.{ok}
use ux_contracts.Chain.Asset.{Asset}
use ux_contracts.Chain.Context.{Context}
use ux_contracts.Chain.Platform.{Platform}
use ux_contracts.Token.{CurrencyStats, State, find_stat, issue, retire, transfer}
use ux_contracts.Token.Balances.{balance}
use ux_contracts.Token.Invariant.{IsSound, Updates, balance_nonneg}
use ux_contracts.Token.Supply.{IsBacked, IsBacked-update, IsBacked-same, balance-le-supply}
use ux_contracts.Token.Transfer.{transfer-Moved}
use ux_contracts.Token.Issuance.{Supplied, issue-Supplied, retire-Supplied}

module _ ⦃p : Platform⦄ where
  open p use {find, asset_is_valid_lem, find-drop}

  pub record IsConserved (s : State) : Type 0 where
    pub sound : IsSound s
    pub backed :
        (code : ℕ) (st : CurrencyStats)
        → find_stat s code ≡ some st
        → IsBacked (λ o. balance s o code) st.supply.amount

  -- No balance is more than the supply of its token.
  pub balance_bounded :
      (s : State)
      → IsConserved s
      → (code : ℕ) (st : CurrencyStats) → find_stat s code ≡ some st
      → (o : ℕ) → balance s o code ≤ℤ st.supply.amount
  balance_bounded s h code st f o =
      balance-le-supply (λ a. balance s a code) st.supply.amount o
        (λ a. balance_nonneg s h.sound a code) (h.backed code st f)

  -- One balance and the supply of its token change by the same difference.
  resupply-IsConserved :
      (s s' : State) (owner code : ℕ) (st st' : CurrencyStats) (amount : ℤ)
      → IsConserved s
      → find_stat s code ≡ some st
      → Updates s s' owner code amount
      → ((c : ℕ) → find_stat s' c ≡ (if code == c then some st' else find_stat s c))
      → st'.supply.amount ≡ st.supply.amount -ℤ balance s owner code +ℤ amount
      → IsSound s'
      → IsConserved s'
  resupply-IsConserved s s' owner code st st' amount h f up stats total sound = record {
    sound = sound;
    backed = λ c row g. elim (Bool-cases (code == c)) [
      | inl here ↦
          let k : code ≡ c = (==_iff code c).0 here in
          let e : st' ≡ row = ground (arith, stats c) in
          let b =
            IsBacked-update (λ o. balance s o code) (λ o. balance s' o code) owner st.supply.amount
              amount (λ o. ground (arith, up o code)) (h.backed code st f) in
          subst (λ n. IsBacked (λ o. balance s' o n) row.supply.amount) k
            (subst (IsBacked (λ o. balance s' o code))
              (sym total ∙ ap (λ (r : CurrencyStats). r.supply.amount) e) b)
      | inr there ↦
          IsBacked-same (λ o. balance s o c) (λ o. balance s' o c) row.supply.amount
            (λ o. ground (arith, up o c)) (h.backed c row (ground (arith, stats c)))
    ];
  }

  -- Rows change, and no balance and no supply.
  pub same-IsConserved :
      (s s' : State)
      → IsConserved s
      → ((o c : ℕ) → balance s' o c ≡ balance s o c)
      → s'.stat ≡ s.stat
      → IsSound s'
      → IsConserved s'
  same-IsConserved s s' h same stats sound = record {
    sound = sound;
    backed = λ c row g.
        IsBacked-same (λ o. balance s o c) (λ o. balance s' o c) row.supply.amount (λ o. same o c)
          (h.backed c row (sym (ap (λ t. find t c c) stats) ∙ g));
  }

  two_updates :
      (f g : ℕ → ℤ) (from to : ℕ) (supply q : ℤ)
      → from ≢ to
      → g from ≡ f from -ℤ q
      → g to ≡ f to +ℤ q
      → ((o : ℕ) → (from == o) ≡ false → (to == o) ≡ false → g o ≡ f o)
      → IsBacked f supply
      → IsBacked g supply
  two_updates f g from to supply q ne gf gt others b =
      let mid : ℕ → ℤ = λ o. if from == o then f from -ℤ q else f o in
      let b1 = IsBacked-update f mid from supply (f from -ℤ q) (λ o. refl) b in
      let b2 =
        IsBacked-update mid g to (supply -ℤ f from +ℤ (f from -ℤ q)) (f to +ℤ q)
          (λ o. ground (arith, gf, gt, others o)) b1 in
      let e : mid to ≡ f to = ground (arith, ne) in subst (IsBacked g) (rw e (omega int_laws)) b2

  -- A transfer keeps every supply backed by the balances.
  pub transfer-IsConserved :
      (ctx : Context) (from to : ℕ) (quantity : Asset) (memo : String) (s s' : State)
      → IsConserved s
      → transfer ctx from to quantity memo s ≡ ok (tt, s')
      → IsConserved s'
  transfer-IsConserved ctx from to quantity memo s s' h run =
      let m = transfer-Moved ctx from to quantity memo s s' h.sound run in
      let code = quantity.symbol.code in
      record {
        sound = m.sound;
        backed = λ c row g. elim (Bool-cases (code == c)) [
          | inl here ↦
              let k : code ≡ c = (==_iff code c).0 here in
              two_updates (λ o. balance s o c) (λ o. balance s' o c) from to row.supply.amount
                quantity.amount m.distinct
                (subst (λ n. balance s' from n ≡ balance s from n -ℤ quantity.amount) k m.sender)
                (subst (λ n. balance s' to n ≡ balance s to n +ℤ quantity.amount) k m.receiver)
                (λ o a b. m.others o c (ground arith) (ground arith))
                (h.backed c row (sym (ap (λ t. find t c c) m.same_stat) ∙ g))
          | inr there ↦
              IsBacked-same (λ o. balance s o c) (λ o. balance s' o c) row.supply.amount
                (λ o. m.others o c (ground arith) (ground arith))
                (h.backed c row (sym (ap (λ t. find t c c) m.same_stat) ∙ g))
        ];
      }

  -- Issuing keeps every supply backed by the balances.
  pub issue-IsConserved :
      (ctx : Context) (to : ℕ) (quantity : Asset) (memo : String) (s s' : State)
      → IsConserved s
      → issue ctx to quantity memo s ≡ ok (tt, s')
      → IsConserved s'
  unfolding issue
  issue-IsConserved ctx to quantity memo s s' h run =
      elim (Option-cases (find_stat s quantity.symbol.code)) [
        | inl missing ↦ absurd (ground arith)
        | inr (st, f) ↦
            let (i, _) = issue-Supplied ctx quantity memo s s' st to h.sound f run in
            resupply-IsConserved s s' st.issuer quantity.symbol.code st _ _ h f i.balances i.stats
              (omega int_laws) i.sound
      ]

  -- A retirement that goes through was signed by the issuer and covered by its balance; it lowers
  -- the supply and that balance by the quantity, and changes no other balance and no other supply.
  pub retire_effect :
      (ctx : Context) (quantity : Asset) (memo : String) (s s' : State) (st : CurrencyStats)
      → IsConserved s
      → find_stat s quantity.symbol.code ≡ some st
      → retire ctx quantity memo s ≡ ok (tt, s')
      → Supplied ctx quantity s s' st
          (st.supply.amount -ℤ quantity.amount)
          (balance s st.issuer quantity.symbol.code -ℤ quantity.amount)
  retire_effect ctx quantity memo s s' st h f run =
      retire-Supplied ctx quantity memo s s' st h.sound f
        (balance_bounded s h quantity.symbol.code st f) run

  -- Retiring keeps every supply backed by the balances.
  pub retire-IsConserved :
      (ctx : Context) (quantity : Asset) (memo : String) (s s' : State)
      → IsConserved s
      → retire ctx quantity memo s ≡ ok (tt, s')
      → IsConserved s'
  unfolding retire
  retire-IsConserved ctx quantity memo s s' h run =
      elim (Option-cases (find_stat s quantity.symbol.code)) [
        | inl missing ↦ absurd (ground arith)
        | inr (st, f) ↦
            let i = retire_effect ctx quantity memo s s' st h f run in
            resupply-IsConserved s s' st.issuer quantity.symbol.code st _ _ h f i.balances i.stats
              (omega int_laws) i.sound
      ]
