-- ===== src/BatchDeposit/Due.antt =====
-- Items that have settled or are still to come in a run (frontend/hooks/useBatchDeposit.ts).
use joint_save.Prelude.{
  String, Bool, true, false, ◌||◌, List, [], ◌∷◌, if◌then◌else◌, map, any, ◌≡◌, refl, All,
  Bool-cases, inl, inr, sym, ap, ◌∙◌,
}
use mathlib.Core.Path.{subst}
use joint_save.Prelude.Text.{str_eq}
use joint_save.BatchDeposit.Pools.{BatchDepositPool, BatchItemStatus, BatchDepositItem, is_terminal}
use joint_save.BatchDeposit.Run.{update_item}

pub or_true : (b : Bool) → (b || true) ≡ true
or_true true = refl
or_true false = refl

pub or_false : (b : Bool) → (b || false) ≡ b
or_false true = refl
or_false false = refl

abbrev pub owes : BatchDepositItem → List BatchDepositPool → Bool
owes x ps = any (λ p. str_eq x.pool.id p.id) ps

-- settled, or still to come in the run
abbrev pub Due : List BatchDepositPool → BatchDepositItem → Type 0
Due ps x = (is_terminal x.status || owes x ps) ≡ true

-- an update beside the status, which leaves the status and the pool
abbrev pub Extra : (BatchDepositItem → BatchDepositItem) → Type 0
Extra extra = (x : BatchDepositItem) → ((extra x).status ≡ x.status) × ((extra x).pool ≡ x.pool)

pub Due-terminal :
    (ps : List BatchDepositPool) (x : BatchDepositItem) → is_terminal x.status ≡ true → Due ps x
Due-terminal ps x h = ap (λ t. t || owes x ps) h

Due-first :
    (p : BatchDepositPool) (ps : List BatchDepositPool) (x : BatchDepositItem)
    → str_eq x.pool.id p.id ≡ true
    → Due (p ∷ ps) x
Due-first p ps x h =
    let late = ap (λ t. is_terminal x.status || (t || any (λ q. str_eq x.pool.id q.id) ps)) h in
    late ∙ or_true (is_terminal x.status)

Due-rest :
    (p : BatchDepositPool) (ps : List BatchDepositPool) (x : BatchDepositItem)
    → str_eq x.pool.id p.id ≡ false
    → Due (p ∷ ps) x
    → Due ps x
Due-rest p ps x h d =
    sym (ap (λ t. is_terminal x.status || (t || any (λ q. str_eq x.pool.id q.id) ps)) h) ∙ d

update_item-hit :
    (i : String) (s : BatchItemStatus) (extra : BatchDepositItem → BatchDepositItem)
    (x : BatchDepositItem)
    → str_eq x.pool.id i ≡ true
    → update_item i s extra x ≡ extra (record x { status = s })
update_item-hit i s extra x h = ap (λ t. if t then extra (record x { status = s }) else x) h

update_item-miss :
    (i : String) (s : BatchItemStatus) (extra : BatchDepositItem → BatchDepositItem)
    (x : BatchDepositItem)
    → str_eq x.pool.id i ≡ false
    → update_item i s extra x ≡ x
update_item-miss i s extra x h = ap (λ t. if t then extra (record x { status = s }) else x) h

module _ (p : BatchDepositPool) (ps : List BatchDepositPool) (s : BatchItemStatus)
    (extra : BatchDepositItem → BatchDepositItem) (keeps : Extra extra) where
  pub update-Due :
      (xs : List BatchDepositItem)
      → All (Due (p ∷ ps)) xs
      → All (Due (p ∷ ps)) (map (update_item p.id s extra) xs)
  update-Due [] h = tt
  update-Due (x ∷ xs) (d, h) = elim (Bool-cases (str_eq x.pool.id p.id)) [
    | inl e ↦
        let y = record x { status = s } in
        (
          subst (Due (p ∷ ps)) (sym (update_item-hit p.id s extra x e))
              (Due-first p ps (extra y) (ap (λ q. str_eq q.id p.id) (keeps y).1 ∙ e)),
          update-Due xs h,
        )
    | inr e ↦ (subst (Due (p ∷ ps)) (sym (update_item-miss p.id s extra x e)) d, update-Due xs h)
  ]

  pub settled-Due :
      is_terminal s ≡ true
      → (xs : List BatchDepositItem) → All (Due (p ∷ ps)) xs
      → All (Due ps) (map (update_item p.id s extra) xs)
  settled-Due t [] h = tt
  settled-Due t (x ∷ xs) (d, h) = elim (Bool-cases (str_eq x.pool.id p.id)) [
    | inl e ↦
        let y = record x { status = s } in
        (
          subst (Due ps) (sym (update_item-hit p.id s extra x e))
              (Due-terminal ps (extra y) (ap is_terminal (keeps y).0 ∙ t)),
          settled-Due t xs h,
        )
    | inr e ↦ (
      subst (Due ps) (sym (update_item-miss p.id s extra x e)) (Due-rest p ps x e d),
      settled-Due t xs h,
    )
  ]
