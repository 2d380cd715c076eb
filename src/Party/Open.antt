-- ===== src/Party/Open.antt =====
-- What the party still pays, and in which order (src/multiparty/party_stream.rs).
use redgold.Prelude.{
  ◌≡◌, refl, sym, ap, ◌∙◌, subst, inl, inr, ◌⊎◌, true, false, Bool-cases, Option, none, some,
  Option-cases, some_inj, none≢some, List, [], ◌∷◌, ◌++◌, I64, slt, arith, filter_map, Elem,
  true≢false,
}
use redgold.Structs.{Bytes}
use redgold.Crypto.{Crypto}
use redgold.Party.{
  AddressEvent, external, internal, ExternalTimedTransaction, TransactionWithObservations,
  first_input_address_to_btc_address,
}
use redgold.Party.Stream.{Party, Order, PartyEvents}
use redgold.Party.Orders.{
  has_bytes, unconfirmed_rdg_output_btc_txid_refs, unconfirmed_btc_output_other_addresses, earlier,
  insert_by, sort_by, open_deposit, open_withdrawal, order_time, orders,
}

slt_trans : (a b d : I64) → slt b a ≡ false → slt d b ≡ false → slt d a ≡ false
unfolding slt
slt_trans a b d h k = ground arith

earlier_trans :
    (a b d : Option I64) → earlier b a ≡ false → earlier d b ≡ false → earlier d a ≡ false
unfolding earlier
earlier_trans none none none h k = refl
earlier_trans none none (some d) h k = k
earlier_trans none (some b) none h k = refl
earlier_trans none (some b) (some d) h k = refl
earlier_trans (some a) none d h k = absurd (true≢false h)
earlier_trans (some a) (some b) none h k = absurd (true≢false k)
earlier_trans (some a) (some b) (some d) h k = slt_trans a b d h k

earlier_asym : (a b : Option I64) → earlier a b ≡ true → earlier b a ≡ false
unfolding earlier slt
earlier_asym none none h = refl
earlier_asym none (some b) h = refl
earlier_asym (some a) none h = absurd (true≢false (sym h))
earlier_asym (some a) (some b) h = ground arith

module _ {A : Type 0} (key : A → Option I64) where
  -- No item has an earlier key than one before it.
  abbrev pub IsSorted : List A → Type 0
  IsSorted [] = Unit
  IsSorted (x ∷ xs) = ((z : A) → Elem z xs → earlier (key z) (key x) ≡ false) × IsSorted xs

  Elem-insert_by : (x z : A) (zs : List A) → Elem z (insert_by key x zs) → (z ≡ x) ⊎ Elem z zs
  unfolding insert_by
  Elem-insert_by x z [] m = m
  Elem-insert_by x z (w ∷ zs) m = elim (Bool-cases (earlier (key w) (key x))) [
    | inl t ↦ elim (rw (insert_by, t) at m) [
      | inl h ↦ inr (inl h)
      | inr k ↦ elim (Elem-insert_by x z zs k) [ inl h ↦ inl h | inr i ↦ inr (inr i) ]
    ]
    | inr f ↦ rw (insert_by, f) at m
  ]

  Elem-sort_by : (z : A) (xs : List A) → Elem z (sort_by key xs) → Elem z xs
  unfolding sort_by
  Elem-sort_by z [] m = m
  Elem-sort_by z (x ∷ xs) m = elim (Elem-insert_by x z (sort_by key xs) m) [
    | inl h ↦ inl h
    | inr k ↦ inr (Elem-sort_by z xs k)
  ]

  insert_by-IsSorted : (x : A) (zs : List A) → IsSorted zs → IsSorted (insert_by key x zs)
  unfolding insert_by
  insert_by-IsSorted x [] s = ((λ z m. absurd m), tt)
  insert_by-IsSorted x (w ∷ zs) s = elim (Bool-cases (earlier (key w) (key x))) [
    | inl t ↦
        rw (insert_by, t)
          (
            (λ z m. elim (Elem-insert_by x z zs m) [
              | inl h ↦
                  subst (λ v. earlier (key v) (key w) ≡ false) (sym h)
                    (earlier_asym (key w) (key x) t)
              | inr k ↦ s.0 z k
            ]),
            insert_by-IsSorted x zs s.1,
          )
    | inr f ↦
        rw (insert_by, f)
          (
            (λ z m. elim m [
              | inl h ↦ subst (λ v. earlier (key v) (key x) ≡ false) (sym h) f
              | inr k ↦ earlier_trans (key x) (key w) (key z) f (s.0 z k)
            ]),
            s,
          )
  ]

  sort_by-IsSorted : (xs : List A) → IsSorted (sort_by key xs)
  unfolding sort_by
  sort_by-IsSorted [] = tt
  sort_by-IsSorted (x ∷ xs) = insert_by-IsSorted x (sort_by key xs) (sort_by-IsSorted xs)

Elem-append : {A : Type 0} (a : A) (xs ys : List A) → Elem a (xs ++ ys) → Elem a xs ⊎ Elem a ys
Elem-append a [] ys m = inr m
Elem-append a (x ∷ xs) ys (inl h) = inl (inl h)
Elem-append a (x ∷ xs) ys (inr m) = elim (Elem-append a xs ys m) [
  | inl k ↦ inl (inr k)
  | inr k ↦ inr k
]

Elem-filter_map :
    {A B : Type 0} (f : A → Option B) (b : B) (xs : List A)
    → Elem b (filter_map f xs)
    → (a : A) × Elem a xs × (f a ≡ some b)
Elem-filter_map f b [] m = absurd m
Elem-filter_map f b (x ∷ xs) m = elim (Option-cases (f x)) [
  | inl n ↦ let (a, i, e) = Elem-filter_map f b xs (rw (filter_map, n) at m) in (a, inr i, e)
  | inr (d, e) ↦ elim (rw (filter_map, e) at m) [
    | inl h ↦ (x, inl refl, e ∙ ap some (sym h))
    | inr k ↦ let (a, i, g) = Elem-filter_map f b xs k in (a, inr i, g)
  ]
]

module _ (c : Crypto) (y : Party) where
  -- A deposit that waits, and that no unconfirmed transaction of the party names.
  abbrev pub UnpaidDeposit : PartyEvents c y → Order c y → Type 0
  UnpaidDeposit p o =
      (t : ExternalTimedTransaction) × Elem (o, external t) p.unfulfilled_deposits
      × (has_bytes t.tx_id (unconfirmed_rdg_output_btc_txid_refs p.unconfirmed_events) ≡ false)

  -- A withdrawal that waits, to an address that no unconfirmed transaction of the party pays.
  abbrev pub UnpaidWithdrawal : PartyEvents c y → Order c y → Type 0
  UnpaidWithdrawal p o =
      (t : TransactionWithObservations) × (a : Bytes) × Elem (o, internal t)
        p.unfulfilled_withdrawals
      × (first_input_address_to_btc_address c y.addresses t.tx ≡ some a)
      × (has_bytes a (unconfirmed_btc_output_other_addresses p.unconfirmed_events) ≡ false)

  open_deposit-unpaid :
      (p : PartyEvents c y) (o : Order c y) (x : Order c y × AddressEvent)
      → Elem x p.unfulfilled_deposits
      → open_deposit c y (unconfirmed_rdg_output_btc_txid_refs p.unconfirmed_events) x ≡ some o
      → UnpaidDeposit p o
  unfolding open_deposit
  open_deposit-unpaid p o (q, internal t) m e = absurd (none≢some e)
  open_deposit-unpaid p o (q, external t) m e =
      elim (Bool-cases
        (has_bytes t.tx_id (unconfirmed_rdg_output_btc_txid_refs p.unconfirmed_events))) [
          | inl h ↦ absurd (none≢some (rw (open_deposit, h) at e))
          | inr f ↦ (
            t,
            subst (λ w. Elem (w, external t) p.unfulfilled_deposits)
                (some_inj (rw (open_deposit, f) at e)) m,
            f,
          )
        ]

  open_withdrawal-unpaid :
      (p : PartyEvents c y) (o : Order c y) (x : Order c y × AddressEvent)
      → Elem x p.unfulfilled_withdrawals
      → open_withdrawal c y (unconfirmed_btc_output_other_addresses p.unconfirmed_events) x ≡ some o
      → UnpaidWithdrawal p o
  unfolding open_withdrawal
  open_withdrawal-unpaid p o (q, external t) m e = absurd (none≢some e)
  open_withdrawal-unpaid p o (q, internal t) m e =
      elim (Option-cases (first_input_address_to_btc_address c y.addresses t.tx)) [
        | inl n ↦ absurd (none≢some (rw (open_withdrawal, n) at e))
        | inr (a, g) ↦
            elim (Bool-cases
              (has_bytes a (unconfirmed_btc_output_other_addresses p.unconfirmed_events))) [
                | inl h ↦ absurd (none≢some (rw (open_withdrawal, g, h) at e))
                | inr f ↦ (
                  t,
                  a,
                  subst (λ w. Elem (w, internal t) p.unfulfilled_withdrawals)
                      (some_inj (rw (open_withdrawal, g, f) at e)) m,
                  g,
                  f,
                )
              ]
      ]

  -- The orders to pay are sorted by the time of their events, and each is a deposit or a withdrawal that
  -- waits and that no unconfirmed transaction of the party pays already.
  pub orders-unpaid :
      (p : PartyEvents c y)
      → IsSorted (order_time c y) (orders c y p)
        × ((o : Order c y) → Elem o (orders c y p) → UnpaidDeposit p o ⊎ UnpaidWithdrawal p o)
  unfolding orders
  orders-unpaid p = (
    sort_by-IsSorted (order_time c y) _,
    (λ o m.
        elim (Elem-append o deposits withdrawals
          (Elem-sort_by (order_time c y) o (deposits ++ withdrawals) m)) [
            | inl k ↦
                let (x, i, e) = Elem-filter_map _ o p.unfulfilled_deposits k in
                inl (open_deposit-unpaid p o x i e)
            | inr k ↦
                let (x, i, e) = Elem-filter_map _ o p.unfulfilled_withdrawals k in
                inr (open_withdrawal-unpaid p o x i e)
          ]),
  )
    where
      deposits : List (Order c y)
      deposits =
          filter_map (open_deposit c y (unconfirmed_rdg_output_btc_txid_refs p.unconfirmed_events))
            p.unfulfilled_deposits

      withdrawals : List (Order c y)
      withdrawals =
          filter_map
            (open_withdrawal c y (unconfirmed_btc_output_other_addresses p.unconfirmed_events))
            p.unfulfilled_withdrawals
