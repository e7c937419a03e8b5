-- ===== src/System/Creation.antt =====
-- An account with a name that is auctioned goes to the winner of a closed auction.
use ux_contracts.Prelude.{
  ℕ, ◌≡◌, ◌/◌, ◌∙◌, refl, sym, ap, subst, if◌then◌else◌, not, ◌&&◌, true, false, ◌==◌, none, some,
  is_some, arith, ℤ, pos, ◌<ℤ◌,
}
use ux_contracts.Chain.Action.{ok, when, check, gets, modify, ◌>>=◌, ◌>>◌}
use ux_contracts.Chain.Asset.{Asset}
use ux_contracts.Chain.Context.{Context}
use ux_contracts.Chain.Platform.{Platform}
use ux_contracts.Chain.Double.{Double}
use ux_contracts.Chain.Frame.{bind-ok, or_fail-then, when-then}
use ux_contracts.Bidding.{NameBid}
use ux_contracts.System.Tables.{Names, UserResources}
use ux_contracts.System.State.{State, core_asset, set_resource_limits}
use ux_contracts.System.Ram.{put_resources}
use ux_contracts.System.Core.{has_dot, newaccount, check_name, claim_name, new_resources}

module _ ⦃p : Platform⦄ ⦃d : Double⦄ ⦃n : Names⦄ where
  open p use {find, drop, find-drop, find-put}

  -- What the creation of an account with a name that is auctioned rests on, and what it leaves.
  pub record Created (self creator newact : ℕ) (s t : State) : Type 0 where
    pub bid : NameBid
    pub found : find s.bids self newact ≡ some bid
    pub winner : bid.high_bidder ≡ creator
    pub closed : bid.high_bid <ℤ pos 0
    pub gone : find t.bids self newact ≡ none
    pub other_bids : (b : ℕ) → (newact == b) ≡ false → find t.bids self b ≡ find s.bids self b
    pub unknown : find s.userres newact newact ≡ none
    pub row : UserResources
    pub row_lem : find t.userres newact newact ≡ some row
    pub empty_row :
        (row.owner ≡ newact)
        × (row.net_weight.amount ≡ pos 0)
        × (row.cpu_weight.amount ≡ pos 0)
        × (row.ram_bytes ≡ pos 0)
    pub no_limits : t.limits newact ≡ record { ram = pos 0; net = pos 0; cpu = pos 0 }

  claim_name-Claimed :
      (ctx : Context) (creator newact : ℕ) (s t : State)
      → claim_name ctx creator newact s ≡ ok (tt, t)
      → (b : NameBid) × (find s.bids ctx.self newact ≡ some b)
        × (b.high_bidder ≡ creator)
        × (b.high_bid <ℤ pos 0)
        × (t ≡ record s { bids = drop s.bids ctx.self newact })
  claim_name-Claimed ctx creator newact s t run =
      let (b, found, r0) =
        or_fail-then (find s.bids ctx.self newact) "no active bid for name" _ s t tt run in
      (b, found, ground arith, ground arith, ground arith)

  core_asset-ok :
      (amount : ℤ) (s t : State) (x : Asset)
      → core_asset amount s ≡ ok (x, t)
      → (x.amount ≡ amount) × (t ≡ s)
  core_asset-ok amount s t x run = ground arith

  -- The state with the row of a new account.
  abbrev with_row : ℕ → Asset → Asset → State → State
  with_row newact net cpu s =
      set_resource_limits newact (pos 0) (pos 0) (pos 0)
        (put_resources newact newact (new_resources newact net cpu) s)

  row-stored :
      (newact : ℕ) (net cpu : Asset) (s t : State)
      → (do
        found ← gets (λ (s : State). find s.userres newact newact)
        check
            (not (is_some found))
            "could not insert object, most likely a uniqueness constraint was violated"
        modify (put_resources newact newact (new_resources newact net cpu))
        modify (set_resource_limits newact (pos 0) (pos 0) (pos 0)))
          s
        ≡ ok (tt, t)
      → (find s.userres newact newact ≡ none) × (t ≡ with_row newact net cpu s)
  row-stored newact net cpu s t run = (ground arith, ground arith)

  created :
      (self creator newact : ℕ) (s t : State) (net cpu : Asset) (b : NameBid)
      → find s.bids self newact ≡ some b
      → b.high_bidder ≡ creator
      → b.high_bid <ℤ pos 0
      → net.amount ≡ pos 0
      → cpu.amount ≡ pos 0
      → find s.userres newact newact ≡ none
      → t ≡ with_row newact net cpu (record s { bids = drop s.bids self newact })
      → Created self creator newact s t
  created self creator newact s t net cpu b found winner closed zero_net zero_cpu unknown after =
      let bids_are : t.bids ≡ drop s.bids self newact = ap (λ (w : State). w.bids) after in
      record {
        bid = b;
        found = found;
        winner = winner;
        closed = closed;
        gone =
            ap (λ w. find w self newact) bids_are
            ∙ find-drop s.bids self newact self newact
            ∙ ground arith;
        other_bids = λ c e.
            ap (λ w. find w self c) bids_are ∙ find-drop s.bids self newact self c ∙ ground arith;
        unknown = unknown;
        row = new_resources newact net cpu;
        row_lem =
            ap (λ (w : State). find w.userres newact newact) after
            ∙ find-put s.userres newact newact newact (new_resources newact net cpu) newact newact
            ∙ ground arith;
        empty_row = (refl, zero_net, zero_cpu, refl);
        no_limits = ap (λ (w : State). w.limits newact) after ∙ ground arith;
      }

  -- The creator is not the system, the name has a dot among its characters and is its own suffix: an
  -- account is created with it only if the creator holds the highest bid of an auction that is
  -- closed. The bid is then gone, and no other; the account had no resources, and gets a row
  -- with none and limits of zero.
  pub newaccount-Created :
      (ctx : Context) (creator newact : ℕ) (s t : State)
      → (creator == ctx.self) ≡ false
      → has_dot 12 (newact / 16) ≡ true
      → n.suffix newact ≡ newact
      → newaccount ctx creator newact s ≡ ok (tt, t)
      → Created ctx.self creator newact s t
  unfolding newaccount
  newaccount-Created ctx creator newact s t other dotted own run =
      let (u1, s1, e1, r1) = bind-ok (when _ (check_name ctx creator newact)) _ s t tt run in
      let e1' : check_name ctx creator newact s ≡ ok (tt, s1) =
        when-then (not (creator == ctx.self) && has_dot 12 (newact / 16))
          (check_name ctx creator newact) s (ok (tt, s1)) (ground arith) e1 in
      let top : (n.suffix newact == newact) ≡ true = ground arith in
      let (b, found, winner, closed, after) = claim_name-Claimed ctx creator newact s s1 (
        subst
          (λ b.
            (if b
                then claim_name ctx creator newact
                else check (creator == n.suffix newact) "only suffix may create this account")
              s
            ≡ ok (tt, s1))
          top e1') in
      let (net, s2, e2, r2) = bind-ok (core_asset (pos 0)) _ s1 t tt r1 in
      let (cpu, s3, e3, r3) = bind-ok (core_asset (pos 0)) _ s2 t tt r2 in
      let same2 = core_asset-ok (pos 0) s1 s2 net e2 in
      let same3 = core_asset-ok (pos 0) s2 s3 cpu e3 in
      let here : s3 ≡ record s { bids = drop s.bids ctx.self newact } = same3.1 ∙ same2.1 ∙ after in
      let (unknown, stored) = row-stored newact net cpu s3 t r3 in
      created ctx.self creator newact s t net cpu b found winner closed same2.0 same3.0
        (ap (λ (w : State). find w.userres newact newact) (sym here) ∙ unknown)
        (stored ∙ ap (with_row newact net cpu) here)
