-- ===== src/Optimistic/Invariant.antt =====
-- What the manager keeps true: who is in the map, who is polled, who was told
-- (frontend/hooks/useOptimisticTransactions.ts).
use joint_save.Prelude.{
  ℕ, String, Bool, true, false, not, Option, none, some, List, [], ◌∷◌, ◌||◌, ◌&&◌, ◌≡◌, ◌<◌, refl,
  arith, sym, ap, ◌∙◌, if◌then◌else◌, ◌==◌, any, All, All-weaken, inl, inr, Bool-cases, is_some,
  eq_iff,
}
use joint_save.Prelude.Text.{str_eq}
use joint_save.Optimistic.Manager.{
  PendingTransaction, TxStatus, Asked, Notice, State, address_of, set_address, delete_address, put,
  has_hash, is_pending, settle_tx,
}

pub address_of-set_address :
    (j i : String) (o : ℕ) (m : List (String × ℕ))
    → address_of j (set_address i o m) ≡ (if str_eq i j then some o else address_of j m)
address_of-set_address j i o [] = refl
address_of-set_address j i o ((k, p) ∷ m) =
    ground (arith, address_of-set_address j i o m, eq_iff k i, eq_iff k j, eq_iff i j)

pub address_of-delete_address :
    (j i : String) (m : List (String × ℕ))
    → address_of j (delete_address i m) ≡ (if str_eq i j then none else address_of j m)
address_of-delete_address j i [] = ground arith
address_of-delete_address j i ((k, p) ∷ m) =
    ground (arith, address_of-delete_address j i m, eq_iff k i, eq_iff k j, eq_iff i j)

abbrev pub is_watched : String → State → Bool
is_watched i s = any (λ t. str_eq t.tx_id i) s.timers || any (λ a. str_eq a.tx_id i) s.asking

abbrev pub tells_of : String → Notice → Bool
tells_of i h = str_eq h.tx_id i

-- a notice that is the end of a transaction
abbrev pub ends : String → Notice → Bool
ends i h = str_eq h.tx_id i && not (is_pending h.status)

abbrev pub is_accounted : String → State → Bool
is_accounted i s = any (ends i) s.heard || is_some (address_of i s.pending_transactions)

pub record IsLive (s : State) (i : String) (o : ℕ) : Type 0 where
  pub known : o < s.next
  pub named : (s.objects o).id ≡ i
  pub waiting : is_pending (s.objects o).status ≡ true

pub record IsAsked (s : State) (a : Asked) : Type 0 where
  pub known : a.object < s.next
  pub named : (s.objects a.object).id ≡ a.tx_id

-- The ids that `must` allows are watched, if they have a hash.
pub record Inv (must : String → Bool) (s : State) : Type 0 where
  pub entries : (i : String) (o : ℕ) → address_of i s.pending_transactions ≡ some o → IsLive s i o
  pub requests : All (IsAsked s) s.asking
  pub watched :
      (i : String) (o : ℕ)
      → address_of i s.pending_transactions ≡ some o
      → has_hash (s.objects o) ≡ true
      → must i ≡ true
      → is_watched i s ≡ true
  pub told : (i : String) → any (tells_of i) s.heard ≡ true → is_accounted i s ≡ true

abbrev pub all_ids : String → Bool
all_ids i = true

abbrev pub all_but : String → String → Bool
all_but i j = not (str_eq i j)

pub relaxed : (i : String) (s : State) → Inv all_ids s → Inv (all_but i) s
relaxed i s v = record {
  entries = v.entries;
  requests = v.requests;
  watched = λ j o e h m. v.watched j o e h refl;
  told = v.told;
}

pub other_object :
    (o p : ℕ) (i j : String) (objects : ℕ → PendingTransaction) (tx : PendingTransaction)
    → (objects o).id ≡ i
    → (objects p).id ≡ j
    → str_eq i j ≡ false
    → put o tx objects p ≡ objects p
other_object o p i j objects tx h k d = elim (Bool-cases (p == o)) [
  | inl same ↦
      absurd (
        ground (arith, (eq_iff i j).1 (sym h ∙ ap (λ q. (objects q).id) (sym (equal same)) ∙ k), d))
  | inr other ↦ ap (λ b. if b then tx else objects p) other
]
  where
    equal : p == o ≡ true → p ≡ o
    equal e = ground (arith, e)

pub same_name :
    (o p : ℕ) (objects : ℕ → PendingTransaction) (tx : PendingTransaction)
    → tx.id ≡ (objects o).id
    → (put o tx objects p).id ≡ (objects p).id
same_name o p objects tx h = elim (Bool-cases (p == o)) [
  | inl same ↦
      ap (λ b. (if◌then◌else◌ {A = PendingTransaction} b tx (objects p)).id) same
      ∙ h
      ∙ ap (λ q. (objects q).id) (sym (equal same))
  | inr other ↦ ap (λ b. (if◌then◌else◌ {A = PendingTransaction} b tx (objects p)).id) other
]
  where
    equal : p == o ≡ true → p ≡ o
    equal e = ground (arith, e)

deleted :
    (j i : String) (m : List (String × ℕ)) (p : ℕ)
    → address_of j (delete_address i m) ≡ some p
    → (str_eq i j ≡ false) × (address_of j m ≡ some p)
deleted j i m p e = elim (Bool-cases (str_eq i j)) [
  | inl same ↦ absurd (ground (arith, address_of-delete_address j i m, e, same))
  | inr other ↦ (other, ground (arith, address_of-delete_address j i m, e, other))
]

pub settle_tx-Inv :
    (i : String) (o : ℕ) (st : TxStatus) (error : Option String) (s : State)
    → Inv (all_but i) s
    → (s.objects o).id ≡ i
    → is_pending st ≡ false
    → Inv all_ids (settle_tx i o st error s)
unfolding settle_tx
settle_tx-Inv i o st error s v named final = record {
  entries = λ j p e.
      let (d, was) = deleted j i s.pending_transactions p e in
      let l = v.entries j p was in
      let same = other_object o p i j s.objects settled named l.named d in
      record {
        known = l.known;
        named = ap (λ t. t.id) same ∙ l.named;
        waiting = ap (λ t. is_pending t.status) same ∙ l.waiting;
      };
  requests =
      All-weaken s.asking
        (λ a k. record {
          known = k.known;
          named = same_name o a.object s.objects settled refl ∙ k.named;
        })
        v.requests;
  watched = λ j p e h m.
      let (d, was) = deleted j i s.pending_transactions p e in
      let l = v.entries j p was in
      let same = other_object o p i j s.objects settled named l.named d in
      v.watched j p was (ap has_hash (sym same) ∙ h) (ap not d);
  told = λ j h. accounted j (v.told j) h;
}
  where
    settled : PendingTransaction
    settled = record (s.objects o) { status = st; error = error }

    accounted :
        (j : String)
        → (any (tells_of j) s.heard ≡ true → is_accounted j s ≡ true)
        → (str_eq i j || any (tells_of j) s.heard) ≡ true
        → ((str_eq i j && not (is_pending st))
            || any (ends j) s.heard
            || is_some (address_of j (delete_address i s.pending_transactions)))
          ≡ true
    accounted j old h = elim (Bool-cases (str_eq i j)) [
      | inl same ↦ ground (arith, same, final)
      | inr other ↦ ground (
        arith,
        other,
        address_of-delete_address j i s.pending_transactions,
        old (ground (arith, other, h)),
      )
    ]
