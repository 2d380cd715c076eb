-- ===== src/Hashing/Signing.antt =====
-- Signing does not change what is signed (keys/src/transaction_support.rs, schema/src/transaction.rs).
use redgold.Prelude.{
  ◌≡◌, refl, sym, ap, ap₂, ◌∙◌, none, some, List, [], ◌∷◌, map, map?, Bool, true, false, Result, ok,
  err, err≢ok, ok-injective, >>=-eq-ok, expect, subst, if◌then◌else◌, arith, expect-eq-ok,
  ErrorInfo, ◌>>◌,
}
use redgold.Structs.{Hash, Address, Proof, Input, Transaction, StructMetadata}
use redgold.Crypto.{Crypto}
use redgold.Transaction.{hash_or}
use redgold.Hashing.{
  clear_input_proofs, clear_counter_party_proofs, clear_confirmation_proofs, hash_clear,
  metadata_hash_clear, calculate_hash, signable_hash, with_hash, sign_input, sign_inputs, sign,
}

-- What of an input is signed.
abbrev pub strip : Input → Input
strip i = record i { proof = []; output = none }

-- Two transactions that agree on all that is signed.
pub record SameContent (s t : Transaction) : Type 0 where
  pub inputs : map strip s.inputs ≡ map strip t.inputs
  pub outputs : s.outputs ≡ t.outputs
  pub options : s.options ≡ t.options
  pub metadata :
      map? metadata_hash_clear s.struct_metadata ≡ map? metadata_hash_clear t.struct_metadata

strip-map :
    (xs : List Input)
    → map
        (λ (i : Input). record i { output = none })
        (map (λ (i : Input). record i { proof = [] }) xs)
      ≡ map strip xs
strip-map [] = refl
strip-map (x ∷ xs) = ap (◌∷◌ (strip x)) (strip-map xs)

sign_input-strip :
    (addr : Address) (p : Proof) (i j : Input) (b : Bool)
    → sign_input addr p i ≡ ok (b, j)
    → strip j ≡ strip i
unfolding sign_input
sign_input-strip addr p i j b e = ground arith

sign_inputs-strip :
    (addr : Address) (p : Proof) (is js : List Input) (b : Bool)
    → sign_inputs addr p is ≡ ok (b, js)
    → map strip js ≡ map strip is
unfolding sign_inputs
sign_inputs-strip addr p [] js b e =
    ap (λ (x : Bool × List Input). map strip x.1) (sym (ok-injective e))
sign_inputs-strip addr p (i ∷ is) js b e =
    let ((s, j), e1, e2) = >>=-eq-ok (sign_input addr p i) _ e in
    let ((r, ks), e3, e4) = >>=-eq-ok (sign_inputs addr p is) _ e2 in
    ap (λ (x : Bool × List Input). map strip x.1) (sym (ok-injective e4))
    ∙ ap₂ ◌∷◌ (sign_input-strip addr p i j s e1) (sign_inputs-strip addr p is ks r e3)

clear_of_some :
    (s : Transaction) (m n : StructMetadata)
    → s.struct_metadata ≡ some m
    → metadata_hash_clear m ≡ metadata_hash_clear n
    → map? metadata_hash_clear s.struct_metadata ≡ some (metadata_hash_clear n)
clear_of_some s m n e h = rw (e, h)

change_metadata :
    (s : Transaction) (n : StructMetadata)
    → map? metadata_hash_clear s.struct_metadata ≡ some (metadata_hash_clear n)
    → SameContent s (record s { struct_metadata = some n })
change_metadata s n h = record { inputs = refl; outputs = refl; options = refl; metadata = h }

SameContent-trans : {s t u : Transaction} → SameContent s t → SameContent t u → SameContent s u
SameContent-trans h k = record {
  inputs = h.inputs ∙ k.inputs;
  outputs = h.outputs ∙ k.outputs;
  options = h.options ∙ k.options;
  metadata = h.metadata ∙ k.metadata;
}

guard-eq-ok {ℓ} :
    {A : Type ℓ} (b : Bool) (i : ErrorInfo) (r : Result A) {a : A}
    → ((if b then ok tt else err i) >> r) ≡ ok a
    → r ≡ ok a
guard-eq-ok true i r e = e
guard-eq-ok false i r e = absurd (err≢ok e)

module _ (c : Crypto) where
  SameContent-signable_hash :
      (s t : Transaction) → SameContent s t → signable_hash c s ≡ signable_hash c t
  unfolding signable_hash calculate_hash hash_clear clear_input_proofs clear_counter_party_proofs
      clear_confirmation_proofs
  SameContent-signable_hash s t h =
      rw (strip-map s.inputs, strip-map t.inputs, h.inputs, h.outputs, h.options, h.metadata)

  with_hash-SameContent : (s t : Transaction) → with_hash c s ≡ ok t → SameContent s t
  unfolding with_hash
  with_hash-SameContent s t e =
      let (m, e1, e2) = >>=-eq-ok (expect s.struct_metadata "set") _ e in
      subst (SameContent s) (ok-injective e2) (
        change_metadata s _ (
          clear_of_some s m (record m { hash = some (calculate_hash c s) })
            (expect-eq-ok s.struct_metadata "set" e1) refl))

  -- Signing changes only the proofs of inputs and the stored hashes.
  pub sign-SameContent :
      (addr : Address) (prove : Hash → Proof) (tx : Transaction) {signed : Transaction}
      → sign c addr prove tx ≡ ok signed
      → SameContent tx signed
  unfolding sign
  sign-SameContent addr prove tx e =
      let ((b, is), e1, e2) =
        >>=-eq-ok (sign_inputs addr (prove (signable_hash c tx)) tx.inputs) _ e in
      let e3 = guard-eq-ok b _ _ e2 in
      let (x, e4, e5) = >>=-eq-ok (with_hash c (record tx { inputs = is })) _ e3 in
      let (m, e6, e7) = >>=-eq-ok (expect x.struct_metadata "sm") _ e5 in
      let new_inputs : SameContent tx (record tx { inputs = is }) = record {
        inputs = sym (sign_inputs-strip addr (prove (signable_hash c tx)) tx.inputs is b e1);
        outputs = refl;
        options = refl;
        metadata = refl;
      } in
      let stored = change_metadata x _ (
        clear_of_some x m (record m { signed_hash = some (hash_or (calculate_hash c) x) })
          (expect-eq-ok x.struct_metadata "sm" e6) refl) in
      SameContent-trans (SameContent-trans new_inputs (with_hash-SameContent _ x e4))
        (subst (SameContent x) (ok-injective e7) stored)

  -- A signed transaction has the signable hash that was signed, and only input proofs and stored
  -- hashes differ.
  pub signable_hash-sign :
      (addr : Address) (prove : Hash → Proof) (tx : Transaction) {signed : Transaction}
      → sign c addr prove tx ≡ ok signed
      → signable_hash c signed ≡ signable_hash c tx
  signable_hash-sign addr prove tx e =
      sym (SameContent-signable_hash tx _ (sign-SameContent addr prove tx e))
