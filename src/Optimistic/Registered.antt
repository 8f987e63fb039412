-- ===== src/Optimistic/Registered.antt =====
-- A new transaction is registered under its id
-- (frontend/hooks/useOptimisticTransactions.ts).
use joint_save.Prelude.{
  ℕ, String, Bool, true, false, Option, some, ◌||◌, ◌&&◌, ◌≡◌, ◌<◌, ◌⊎◌, refl, arith, sym, ap, ◌∙◌,
  if◌then◌else◌, ◌==◌, any, All-weaken, inl, inr, Bool-cases, is_some, or_else, eq_iff,
}
use mathlib.Core.Path.{subst}
use joint_save.Prelude.Text.{str_eq}
use joint_save.Optimistic.Manager.{
  PendingTransaction, State, address_of, set_address, put, has_hash, is_pending, register_pending,
}
use joint_save.Optimistic.Invariant.{
  tells_of, ends, is_accounted, IsLive, Inv, all_ids, address_of-set_address,
}

module _ (tx : PendingTransaction) (s : State) where
  found :
      (b : Bool) (o : Option ℕ) (p : ℕ)
      → b ≡ true
      → (if b then some s.next else o) ≡ some p
      → some s.next ≡ some p
  found b o p b_true k = ap (λ c. if c then some s.next else o) (sym b_true) ∙ k

  placed :
      (j : String) (p : ℕ)
      → address_of j (set_address tx.id s.next s.pending_transactions) ≡ some p
      → ((str_eq tx.id j ≡ true) × (s.next ≡ p))
        ⊎ ((str_eq tx.id j ≡ false) × (address_of j s.pending_transactions ≡ some p))
  placed j p e =
      let k = sym (address_of-set_address j tx.id s.next s.pending_transactions) ∙ e in
      elim (Bool-cases (str_eq tx.id j)) [
        | inl same ↦ inl (
          same,
          ap (λ o. or_else o p)
              (found (str_eq tx.id j) (address_of j s.pending_transactions) p same k),
        )
        | inr other ↦ inr (other, ground (arith, k, other))
      ]

  differs_from : (p : ℕ) → p < s.next → p == s.next ≡ false
  differs_from p lt = ground (arith, lt)

  unchanged : (p : ℕ) → p < s.next → put s.next tx s.objects p ≡ s.objects p
  unchanged p lt = ap (λ b. if b then tx else s.objects p) (differs_from p lt)

  equals : (p : ℕ) → s.next ≡ p → p == s.next ≡ true
  equals p e = ground (arith, e)

  at_new : (p : ℕ) → s.next ≡ p → put s.next tx s.objects p ≡ tx
  at_new p e = ap (λ b. if b then tx else s.objects p) (equals p e)

  new-IsLive :
      (j : String)
      → is_pending tx.status ≡ true
      → str_eq tx.id j ≡ true
      → IsLive (register_pending tx s) j s.next
  unfolding register_pending
  new-IsLive j st named = record {
    known = omega arith;
    named = ap (λ t. t.id) (at_new s.next refl) ∙ (eq_iff tx.id j).0 named;
    waiting = ap (λ t. is_pending t.status) (at_new s.next refl) ∙ st;
  }

  heard_of :
      (j : String)
      → (any (tells_of j) s.heard ≡ true → is_accounted j s ≡ true)
      → (str_eq tx.id j || any (tells_of j) s.heard) ≡ true
      → ((str_eq tx.id j && false)
          || any (ends j) s.heard
          || is_some (address_of j (set_address tx.id s.next s.pending_transactions)))
        ≡ true
  heard_of j old h =
      let k = ap is_some (address_of-set_address j tx.id s.next s.pending_transactions) in
      elim (Bool-cases (str_eq tx.id j)) [
        | inl same ↦ ground (arith, same, k)
        | inr other ↦ ground (arith, other, k, old (ground (arith, other, h)))
      ]

  pub register_pending-Inv :
      is_pending tx.status ≡ true
      → has_hash tx ≡ false
      → Inv all_ids s
      → Inv all_ids (register_pending tx s)
  unfolding register_pending
  register_pending-Inv st bare v = record {
    entries = λ j p e. elim (placed j p e) [
      | inl (named, is_new) ↦
          subst (IsLive (register_pending tx s) j) is_new (new-IsLive j st named)
      | inr (differs, was) ↦
          let l = v.entries j p was in
          let same = unchanged p l.known in
          record {
            known = omega (arith, l.known);
            named = ap (λ t. t.id) same ∙ l.named;
            waiting = ap (λ t. is_pending t.status) same ∙ l.waiting;
          }
    ];
    requests =
        All-weaken s.asking
          (λ a k. record {
            known = omega (arith, k.known);
            named = ap (λ t. t.id) (unchanged a.object k.known) ∙ k.named;
          })
          v.requests;
    watched = λ j p e h m. elim (placed j p e) [
      | inl (named, is_new) ↦ absurd (ground (arith, bare, ap has_hash (sym (at_new p is_new)) ∙ h))
      | inr (differs, was) ↦
          v.watched j p was (ap has_hash (sym (unchanged p (v.entries j p was).known)) ∙ h) refl
    ];
    told = λ j h. heard_of j (v.told j) h;
  }
