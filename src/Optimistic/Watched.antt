-- ===== src/Optimistic/Watched.antt =====
-- Polling starts, goes on and is scheduled: the id that a step is about is watched after it
-- (frontend/hooks/useOptimisticTransactions.ts).
use joint_save.Prelude.{
  ℕ, suc, String, true, false, not, some, [], ◌∷◌, ◌++◌, ◌||◌, ◌&&◌, ◌≡◌, refl, arith, sym, ap, ◌∙◌,
  if◌then◌else◌, ◌==◌, any, any-append, All-append, All-weaken, inl, inr, Bool-cases, Option-cases,
  is_some, or_else, eq_iff,
}
use joint_save.Prelude.Text.{str_eq}
use joint_save.Optimistic.Manager.{
  PendingTransaction, pending, Timer, Asked, State, address_of, put, has_hash, is_pending,
  poll_transaction, hashed, set_pending_tx_hash, schedule,
}
use joint_save.Optimistic.Invariant.{
  is_watched, tells_of, ends, is_accounted, IsLive, Inv, all_ids, all_but, other_object, same_name,
}

pub schedule-Inv :
    (i : String) (n : ℕ) (s : State) → Inv (all_but i) s → Inv all_ids (schedule i n s)
unfolding schedule
schedule-Inv i n s v = record {
  entries = λ j p e.
      let l = v.entries j p e in record { known = l.known; named = l.named; waiting = l.waiting };
  requests = All-weaken s.asking (λ a k. record { known = k.known; named = k.named }) v.requests;
  watched = λ j p e h m. more j (v.watched j p e h);
  told = v.told;
}
  where
    t : Timer
    t = record { handle = s.next_handle; tx_id = i; attempt = suc n }

    more :
        (j : String)
        → (not (str_eq i j) ≡ true → is_watched j s ≡ true)
        → (any (λ t. str_eq t.tx_id j) (s.timers ++ (t ∷ []))
            || any (λ a. str_eq a.tx_id j) s.asking)
          ≡ true
    more j old = elim (Bool-cases (str_eq i j)) [
      | inl same ↦ ground (arith, same, any-append (λ u. str_eq u.tx_id j) s.timers (t ∷ []))
      | inr other ↦
          ground
            (arith, other, any-append (λ u. str_eq u.tx_id j) s.timers (t ∷ []), old (ap not other))
    ]

-- an id without a hash needs no watch
tightened :
    (i : String) (s : State)
    → Inv (all_but i) s
    → ((o : ℕ) → address_of i s.pending_transactions ≡ some o → has_hash (s.objects o) ≡ false)
    → Inv all_ids s
tightened i s v bare = record {
  entries = v.entries;
  requests = v.requests;
  watched = λ j o e h m. elim (Bool-cases (str_eq i j)) [
    | inl same ↦ absurd (
        ground (
          arith,
          h,
          bare o (ap (λ k. address_of k s.pending_transactions) ((eq_iff i j).0 same) ∙ e),
        ))
    | inr other ↦ v.watched j o e h (ap not other)
  ];
  told = v.told;
}

asked-Inv :
    (i : String) (o n : ℕ) (s : State)
    → Inv (all_but i) s
    → IsLive s i o
    → Inv all_ids
        (record s { asking = s.asking ++ (record { tx_id = i; object = o; attempt = n } ∷ []) })
asked-Inv i o n s v l = record {
  entries = λ j p e.
      let k = v.entries j p e in record { known = k.known; named = k.named; waiting = k.waiting };
  requests =
      All-append _ s.asking (a ∷ [])
        (All-weaken s.asking (λ a k. record { known = k.known; named = k.named }) v.requests)
        (record { known = l.known; named = l.named }, tt);
  watched = λ j p e h m. more j (v.watched j p e h);
  told = v.told;
}
  where
    a : Asked
    a = record { tx_id = i; object = o; attempt = n }

    more :
        (j : String)
        → (not (str_eq i j) ≡ true → is_watched j s ≡ true)
        → (any (λ t. str_eq t.tx_id j) s.timers
            || any (λ a. str_eq a.tx_id j) (s.asking ++ (a ∷ [])))
          ≡ true
    more j old = elim (Bool-cases (str_eq i j)) [
      | inl same ↦ ground (arith, same, any-append (λ u. str_eq u.tx_id j) s.asking (a ∷ []))
      | inr other ↦
          ground
            (arith, other, any-append (λ u. str_eq u.tx_id j) s.asking (a ∷ []), old (ap not other))
    ]

pub poll_transaction-Inv :
    (i : String) (n : ℕ) (s : State) → Inv (all_but i) s → Inv all_ids (poll_transaction i n s)
unfolding poll_transaction
poll_transaction-Inv i n s v = elim (Option-cases (address_of i s.pending_transactions)) [
  | inl e ↦ rw (poll_transaction, e) (tightened i s v (λ o k. absurd (ground (arith, e, k))))
  | inr (o, e) ↦ rw (poll_transaction, e) (polled o e (v.entries i o e))
]
  where
    polled :
        (o : ℕ)
        → address_of i s.pending_transactions ≡ some o
        → IsLive s i o
        → Inv all_ids (
            if has_hash (s.objects o) && is_pending (s.objects o).status
            then record s {
              asking = s.asking ++ (record { tx_id = i; object = o; attempt = n } ∷ []);
            }
            else s)
    polled o e l = elim (Bool-cases (has_hash (s.objects o))) [
      | inl some_hash ↦ rw (some_hash, l.waiting) (asked-Inv i o n s v l)
      | inr no_hash ↦ rw no_hash (
          tightened i s v
            (λ p k. ap (λ q. has_hash (s.objects (or_else q o))) (sym k ∙ e) ∙ no_hash))
    ]

module _ (i hash : String) (o : ℕ) (s : State) (v : Inv all_ids s)
    (e : address_of i s.pending_transactions ≡ some o) where
  abbrev hashed_tx : PendingTransaction
  hashed_tx = record (s.objects o) { tx_hash = some hash; status = pending }

  still :
      (p : ℕ)
      → is_pending (s.objects p).status ≡ true
      → is_pending (put o hashed_tx s.objects p).status ≡ true
  still p h = elim (Bool-cases (p == o)) [ inl same ↦ rw same refl | inr differs ↦ rw differs h ]

  other :
      (j : String) (p : ℕ)
      → address_of j s.pending_transactions ≡ some p
      → not (str_eq i j) ≡ true
      → put o hashed_tx s.objects p ≡ s.objects p
  other j p k m =
      other_object o p i j s.objects hashed_tx (v.entries i o e).named (v.entries j p k).named
        (ground (arith, m))

  heard_of :
      (j : String)
      → (any (tells_of j) s.heard ≡ true → is_accounted j s ≡ true)
      → (str_eq i j || any (tells_of j) s.heard) ≡ true
      → ((str_eq i j && false)
          || any (ends j) s.heard
          || is_some (address_of j s.pending_transactions))
        ≡ true
  heard_of j old h = elim (Bool-cases (str_eq i j)) [
    | inl same ↦ ground (
      arith,
      same,
      ap (λ k. is_some (address_of k s.pending_transactions)) (sym ((eq_iff i j).0 same))
          ∙ ap is_some e,
    )
    | inr differs ↦ ground (arith, differs, old (ground (arith, differs, h)))
  ]

  pub hashed-Inv : Inv (all_but i) (hashed i o hash s)
  unfolding hashed
  hashed-Inv = record {
    entries = λ j p k.
        let l = v.entries j p k in
        record {
          known = l.known;
          named = same_name o p s.objects hashed_tx refl ∙ l.named;
          waiting = still p l.waiting;
        };
    requests =
        All-weaken s.asking
          (λ a k. record {
            known = k.known;
            named = same_name o a.object s.objects hashed_tx refl ∙ k.named;
          })
          v.requests;
    watched = λ j p k h m. v.watched j p k (ap has_hash (sym (other j p k m)) ∙ h) refl;
    told = λ j h. heard_of j (v.told j) h;
  }

pub set_pending_tx_hash-Inv :
    (i hash : String) (s : State) → Inv all_ids s → Inv all_ids (set_pending_tx_hash i hash s)
unfolding set_pending_tx_hash
set_pending_tx_hash-Inv i hash s v = elim (Option-cases (address_of i s.pending_transactions)) [
  | inl e ↦ rw (set_pending_tx_hash, e) v
  | inr (o, e) ↦
      rw (set_pending_tx_hash, e)
        (poll_transaction-Inv i 0 (hashed i o hash s) (hashed-Inv i hash o s v e))
]
