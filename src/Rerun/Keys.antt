-- ===== src/Rerun/Keys.antt =====
-- Which steps of a copy leave out the keys of an experiment's cell.
use eval_hive.Base.{
  ◌||◌, subst, ◌⊎◌, ℕ, ◌≡◌, ◌==◌, Bool, true, false, nat_eq, text_eq, text_beq, if◌then◌else◌,
  Option, some, none, refl, List, [], ◌∷◌, Text, codes, arith, Bool-cases, Option-cases, inl, inr,
  sorted, text_le, if_both, drop,
}
use eval_hive.Rerun.{
  Texts, Db, Task, Config, Value, get, assign, pop, merge, pop_all, or_empty, flag, names,
  config_keys, Snapshot, has, snapshot, coerce_uuid, text,
}
use eval_hive.Rerun.Clone.{dropped_keys, base_config, pin_template, new_conditions, with_harness}

-- The keys of an experiment's cell.
abbrev pub IsCellKey : Text → Type 0
IsCellKey k = (k ≡ codes "experiment") ⊎ (k ≡ codes "network_mode")

apart :
    (key k : Text)
    → (key == codes "experiment") ≡ false
    → (key == codes "network_mode") ≡ false
    → IsCellKey k
    → (key == k) ≡ false
apart key k e1 e2 (inl e) = rw e e1
apart key k e1 e2 (inr e) = rw e e2

module _ {J : Type 0} where
  abbrev pub LacksKey : Text → Config J → Type 0
  LacksKey k c = get k c ≡ none

  assign-LacksKey :
      (k key : Text) (v : Value J) (c : Config J)
      → (key == k) ≡ false
      → LacksKey k c
      → LacksKey k (assign key v c)
  unfolding get assign
  assign-LacksKey k key v [] ne lacks = ground arith
  assign-LacksKey k key v ((j, u) ∷ c) ne lacks = elim (Bool-cases (j == k)) [
    | inl here ↦ ground arith
    | inr there ↦ let rest = assign-LacksKey k key v c ne (ground arith) in ground arith
  ]

  pop-LacksKey : (k : Text) (c : Config J) → LacksKey k (pop k c)
  unfolding get pop
  pop-LacksKey k [] = refl
  pop-LacksKey k ((j, u) ∷ c) = ground (arith, pop-LacksKey k c)

  pop-LacksKey_other : (k key : Text) (c : Config J) → LacksKey k c → LacksKey k (pop key c)
  unfolding get pop
  pop-LacksKey_other k key [] lacks = refl
  pop-LacksKey_other k key ((j, u) ∷ c) lacks = elim (Bool-cases (j == k)) [
    | inl here ↦ ground arith
    | inr there ↦ let rest = pop-LacksKey_other k key c (ground arith) in ground arith
  ]

  pop_all-LacksKey :
      (k : Text) (ks : List Text) (c : Config J) → LacksKey k c → LacksKey k (pop_all ks c)
  unfolding pop_all
  pop_all-LacksKey k [] c lacks = lacks
  pop_all-LacksKey k (key ∷ ks) c lacks =
      pop_all-LacksKey k ks (pop key c) (pop-LacksKey_other k key c lacks)

  merge-LacksKey :
      (k : Text) (c d : Config J) → LacksKey k c → LacksKey k d → LacksKey k (merge c d)
  unfolding merge get
  merge-LacksKey k c [] lacks lacks2 = lacks
  merge-LacksKey k c ((key, v) ∷ d) lacks lacks2 = elim (Bool-cases (key == k)) [
    | inl here ↦ ground arith
    | inr there ↦
        merge-LacksKey k (assign key v c) d (assign-LacksKey k key v c there lacks) (ground arith)
  ]

  dropped_keys-LacksKey :
      (k : Text) (c : Config J) → IsCellKey k → LacksKey k (pop_all dropped_keys c)
  unfolding pop_all
  dropped_keys-LacksKey k c (inl e) =
      rw e (pop_all-LacksKey _ (drop 1 dropped_keys) _ (pop-LacksKey (codes "experiment") c))
  dropped_keys-LacksKey k c (inr e) = rw e (
      pop_all-LacksKey _ (drop 2 dropped_keys) _
        (pop-LacksKey (codes "network_mode") (pop (codes "experiment") c)))

  module _ (k : Text) (cell : IsCellKey k) where
    -- The keys that a copy writes itself.
    set-LacksKey :
        (key : Text) (v : Value J) (c : Config J)
        → (key == codes "experiment") ≡ false
        → (key == codes "network_mode") ≡ false
        → LacksKey k c
        → LacksKey k (assign key v c)
    set-LacksKey key v c e1 e2 = assign-LacksKey k key v c (apart key k e1 e2 cell)

    conditions-LacksKey :
        (o : Option (Value J)) (c : Config J)
        → LacksKey k c
        → let c1 : Config J = elim o [
          | none ↦ c
          | some v ↦ assign (codes "new_harness_conditions") (flag true) c
        ] in
          LacksKey k c1
    unfolding text_beq
    conditions-LacksKey none c lacks = lacks
    conditions-LacksKey (some v) c lacks = set-LacksKey _ _ c refl refl lacks

    pub base_config-LacksKey :
        (own given : Option (Config J)) (edited : Bool)
        → LacksKey k (or_empty given)
        → LacksKey k (base_config own given edited)
    unfolding base_config text_beq
    base_config-LacksKey own given edited lacks =
        let merged = merge-LacksKey k _ _ (dropped_keys-LacksKey k (or_empty own) cell) lacks in
        let noted =
          set-LacksKey (codes "replay_overrides")
            (names (sorted text_le (config_keys (or_empty given)))) _ refl refl merged in
        let done =
          conditions-LacksKey (get (codes "harness_profile_id") (or_empty given)) _ noted in
        if_both (LacksKey k) edited (set-LacksKey _ _ _ refl refl done) done

    snapshot-LacksKey :
        (o : Option (Snapshot J)) (c : Config J)
        → LacksKey k c
        → let c1 : Config J = elim o [
          | none ↦ c
          | some s ↦ assign (codes "harness_snapshot") (snapshot s) c
        ] in
          LacksKey k c1
    unfolding text_beq
    snapshot-LacksKey none c lacks = lacks
    snapshot-LacksKey (some s) c lacks = set-LacksKey _ _ c refl refl lacks

    pub with_harness-LacksKey :
        (db : Db J) (source : Task J) (given : Option (Config J)) (c : Config J)
        → LacksKey k c
        → LacksKey k (with_harness db source given c)
    unfolding with_harness
    with_harness-LacksKey db source given c lacks = chosen source.current_attempt_id
      where
        chosen :
            (o : Option ℕ)
            → let c1 : Config J = elim o [
              | none ↦ c
              | some j ↦
                  if has (codes "harness_profile_id") (or_empty given)
                    || has (codes "new_harness_conditions") c
                    || has (codes "harness_snapshot") (or_empty given)
                  then c
                  else elim (db.harness_of j) [
                    | none ↦ c
                    | some s ↦ assign (codes "harness_snapshot") (snapshot s) c
                  ]
            ] in
              LacksKey k c1
        chosen none = lacks
        chosen (some j) = if_both (LacksKey k) _ lacks (snapshot-LacksKey (db.harness_of j) c lacks)

    pub new_conditions-LacksKey : (c : Config J) → LacksKey k c → LacksKey k (new_conditions c)
    unfolding new_conditions
    new_conditions-LacksKey c lacks =
        if_both (LacksKey k) (has (codes "new_harness_conditions") c)
          (pop_all-LacksKey k
            (codes "harness_snapshot" ∷ codes "harness_config" ∷ codes "agent_image" ∷ []) c lacks)
          lacks

    pub pin_template-LacksKey :
        (tx : Texts) (source : Task J) (c : Config J) {template : Option ℕ} {c1 : Config J}
        → pin_template tx source c ≡ some (template, c1)
        → LacksKey k c
        → LacksKey k c1
    unfolding pin_template text_beq
    pin_template-LacksKey tx source c {template} {c1} h lacks =
        elim (Bool-cases (has (codes "template_id") c)) [
          | inl own ↦ elim (Option-cases (coerce_uuid tx (get (codes "template_id") c))) [
            | inl bad ↦ cc
            | inr (i, e) ↦
                let same : c ≡ c1 = ground (arith, own, e, h) in subst (LacksKey k) same lacks
          ]
          | inr not_own ↦ elim (Option-cases source.template_id) [
            | inl e ↦
                let same : c ≡ c1 = ground (arith, not_own, e, h) in subst (LacksKey k) same lacks
            | inr (i, e) ↦
                let same : assign (codes "template_id") (text (tx.text_of i)) c ≡ c1 =
                  ground (arith, not_own, e, h) in
                subst (LacksKey k) same (set-LacksKey _ _ c refl refl lacks)
          ]
        ]
