-- ===== src/System/Elections.antt =====
-- The producers that are proposed: how many, in which order, and who.
use mathlib.Core.List.Perm
use mathlib.Core.List.{Perm}
use ux_contracts.Prelude.{
  ℕ, zero, suc, ◌≡◌, ◌≤◌, ◌<◌, ◌⊎◌, inl, inr, refl, ap, Bool, true, false, not, ◌&&◌, none, some,
  List, [], ◌∷◌, map, arith, Bool-cases, leb, length, get_elem?, take, ◌==◌,
}
use ux_contracts.Chain.Action.{ok}
use ux_contracts.Chain.Platform.{Platform}
use ux_contracts.Chain.Double.{Double, of_ℕ}
use ux_contracts.System.Tables.{Authority, ProducerInfo, Global, get_producer_authority}
use ux_contracts.System.State.{State, set_global}
use ux_contracts.System.Producers.{
  Election, top_producers, insert_by_name, sort_by_name, update_elected_producers,
}

-- From `n` on, the names do not go down.
abbrev pub IsSortedFrom : ℕ → List (ℕ × Authority) → Type 0
IsSortedFrom n [] = Unit {0}
IsSortedFrom n (x ∷ xs) = (n ≤ x.0) × IsSortedFrom x.0 xs

and_parts : (a b c : Bool) → a && b && c ≡ true → (a ≡ true) × (b ≡ true) × (c ≡ true)
and_parts a b c h = (ground arith, ground arith, ground arith)

leb_le : (m n : ℕ) → leb m n ≡ true → m ≤ n
leb_le m n h = ground arith

not_zero : (n : ℕ) → not (n == 0) ≡ true → 0 < n
not_zero n h = ground arith

module _ ⦃p : Platform⦄ ⦃d : Double⦄ where
  insert_by_name-IsSortedFrom :
      (n : ℕ) (x : ℕ × Authority) (l : List (ℕ × Authority))
      → n ≤ x.0
      → IsSortedFrom n l
      → IsSortedFrom n (insert_by_name x l)
  unfolding insert_by_name
  insert_by_name-IsSortedFrom n x [] h k = (h, tt)
  insert_by_name-IsSortedFrom n x (y ∷ ys) h (k, ks) = elim (Bool-cases (leb x.0 y.0)) [
    | inl e ↦ rw e (h, (ground arith, ks))
    | inr e ↦ rw e (k, insert_by_name-IsSortedFrom y.0 x ys (ground arith) ks)
  ]

  sort_by_name-IsSortedFrom : (l : List (ℕ × Authority)) → IsSortedFrom 0 (sort_by_name l)
  unfolding sort_by_name
  sort_by_name-IsSortedFrom [] = tt
  sort_by_name-IsSortedFrom (x ∷ xs) =
      insert_by_name-IsSortedFrom 0 x (sort_by_name xs) (omega arith) (sort_by_name-IsSortedFrom xs)

  insert_by_name-perm :
      (x : ℕ × Authority) (l : List (ℕ × Authority)) → Perm (insert_by_name x l) (x ∷ l)
  unfolding insert_by_name
  insert_by_name-perm x [] = Perm.refl (x ∷ [])
  insert_by_name-perm x (y ∷ ys) = elim (Bool-cases (leb x.0 y.0)) [
    | inl e ↦ rw e (Perm.refl (x ∷ y ∷ ys))
    | inr e ↦ rw e (Perm.trans (Perm.cons y (insert_by_name-perm x ys)) (Perm.swap x y ys))
  ]

  sort_by_name-perm : (l : List (ℕ × Authority)) → Perm (sort_by_name l) l
  unfolding sort_by_name
  sort_by_name-perm [] = Perm.nil
  sort_by_name-perm (x ∷ xs) =
      Perm.trans (insert_by_name-perm x (sort_by_name xs)) (Perm.cons x (sort_by_name-perm xs))

  -- A producer that votes have been cast for, and that is active.
  abbrev pub is_electable : ProducerInfo → Bool
  is_electable i = d.lt (of_ℕ 0) i.total_votes && i.is_active

  abbrev pub AreElectable : List ProducerInfo → Type 0
  AreElectable [] = Unit {0}
  AreElectable (i ∷ is) = (is_electable i ≡ true) × AreElectable is

  abbrev pub listed : ProducerInfo → ℕ × Authority
  listed i = (i.owner, get_producer_authority i)

  -- The first producers of the list, as long as they can be elected and there is room.
  pub record Leading (room : ℕ) (ps : List ProducerInfo) (top : List (ℕ × Authority)) : Type 0 where
    pub count : ℕ
    pub fits : count ≤ room
    pub are : top ≡ map listed (take count ps)
    pub size : length top ≡ count
    pub electable : AreElectable (take count ps)
    pub ends :
        (count ≡ room)
        ⊎ (get_elem? ps count ≡ none)
        ⊎ ((i : ProducerInfo) × (get_elem? ps count ≡ some i) × (is_electable i ≡ false))

  top_producers-Leading :
      (room : ℕ) (ps : List ProducerInfo) → Leading room ps (top_producers room ps)
  unfolding top_producers
  top_producers-Leading zero ps = record {
    count = 0;
    fits = omega arith;
    are = refl;
    size = refl;
    electable = tt;
    ends = inl refl;
  }
  top_producers-Leading (suc room) [] = record {
    count = 0;
    fits = omega arith;
    are = refl;
    size = refl;
    electable = tt;
    ends = inr (inl refl);
  }
  top_producers-Leading (suc room) (it ∷ ps) = elim (Bool-cases (is_electable it)) [
    | inl e ↦
        let rest = top_producers-Leading room ps in
        rw e (record {
          count = suc rest.count;
          fits = ground (arith, rest.fits);
          are = ap (λ w. listed it ∷ w) rest.are;
          size = ap suc rest.size;
          electable = (e, rest.electable);
          ends = elim rest.ends [
            | inl f ↦ inl (ap suc f)
            | inr (inl f) ↦ inr (inl f)
            | inr (inr f) ↦ inr (inr f)
          ];
        })
    | inr e ↦ rw e (record {
      count = 0;
      fits = omega arith;
      are = refl;
      size = refl;
      electable = tt;
      ends = inr (inr (it, refl, e));
    })
  ]

  -- What an election does: the schedule stays, or another one is accepted.
  pub record Elected (e : Election) (block_time : ℕ) (s t : State) : Type 0 where
    pub rest :
        t
        ≡ set_global
            (λ (g : Global). record g {
              last_producer_schedule_update = block_time;
              last_producer_schedule_size = t.global.last_producer_schedule_size;
            })
            s
    pub outcome :
        (t.global.last_producer_schedule_size ≡ s.global.last_producer_schedule_size)
        ⊎ ((top : List (ℕ × Authority)) × (schedule : List (ℕ × Authority)) × Leading 21
              (e.by_votes (
                set_global
                  (λ (g : Global). record g { last_producer_schedule_update = block_time })
                  s))
              top
            × Perm schedule top
            × IsSortedFrom 0 schedule
            × (e.set_proposed_producers schedule ≡ true)
            × (t.global.last_producer_schedule_size ≡ length top)
            × (s.global.last_producer_schedule_size ≤ length top)
            × (0 < length top))

  pub update_elected_producers-Elected :
      (e : Election) (block_time : ℕ) (s : State)
      → (t : State) × (update_elected_producers e block_time s ≡ ok (tt, t))
        × Elected e block_time s t
  unfolding update_elected_producers
  update_elected_producers-Elected e block_time s =
      let s1 : State =
        set_global (λ (g : Global). record g { last_producer_schedule_update = block_time }) s in
      let top : List (ℕ × Authority) = top_producers 21 (e.by_votes s1) in
      elim (Bool-cases (
        not (length top == 0)
        && leb s.global.last_producer_schedule_size (length top)
        && e.set_proposed_producers (sort_by_name top))) [
          | inl changed ↦
              let (nonempty, grows, accepted) =
                and_parts (not (length top == 0))
                  (leb s.global.last_producer_schedule_size (length top))
                  (e.set_proposed_producers (sort_by_name top)) changed in
              let t : State =
                set_global (λ (g : Global). record g { last_producer_schedule_size = length top })
                  s1 in
              (
                t,
                rw changed refl,
                record {
                  rest = refl;
                  outcome = inr (
                    top,
                    sort_by_name top,
                    top_producers-Leading 21 (e.by_votes s1),
                    sort_by_name-perm top,
                    sort_by_name-IsSortedFrom top,
                    accepted,
                    refl,
                    leb_le _ _ grows,
                    not_zero _ nonempty,
                  );
                },
              )
          | inr kept ↦ (s1, rw kept refl, record { rest = refl; outcome = inl refl })
        ]
