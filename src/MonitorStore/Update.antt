-- ===== src/MonitorStore/Update.antt =====
-- What an update of the store does, over all its branches.
use cpp_tlfss.Base.{
  ℕ, Bool, true, false, not, ◌&&◌, none, some, List, [], ◌∷◌, if◌then◌else◌, ◌≡◌, refl, arith, ◌∙◌,
  sym, if-keeps, Option-keeps, subst, ==_refl,
}
use cpp_tlfss.MonitorStore.Data.{
  MonitorKey, key_eq, MonitorValue, numeric, text, valueless, MonitorData, StoredRecord,
  UpdateStatus, inserted, updated, unchanged, ignored_initial_zero, invalid, durability_failed,
  UpdateResult, changed,
}
use cpp_tlfss.MonitorStore.Records.{Records, find, emplace, assign}
use cpp_tlfss.MonitorStore.Store.{
  same_text, same_value, same_monitor_value, Prepare, run_prepare, is_zero, is_valueless, refused,
  committed, insert_new, change, update_impl,
}
use cpp_tlfss.MonitorStore.KeyOrder.{key_eq-reflexive}
use cpp_tlfss.MonitorStore.Lookup.{emplace-inserts, erase-emplace, find-emplace, find-assign}

-- The record that an update would store.
abbrev pub candidate_of : MonitorData → ℕ → StoredRecord
candidate_of incoming timestamp = record { stored = incoming; changed_at = timestamp }

-- The outcomes of `update_impl`: refused with the map as it was, unchanged, inserted or updated.
pub update_impl-cases {ℓ} :
    (P : UpdateResult × Records → Type ℓ) (incoming : MonitorData) (force : Bool) (timestamp : ℕ)
    (prepare : Prepare) (records : Records)
    → ((s : UpdateStatus) → changed (refused s) ≡ false → P (refused s, records))
    → (find incoming.key records ≡ none
        → P (
          committed inserted (candidate_of incoming timestamp),
          (emplace incoming.key (candidate_of incoming timestamp) records).0,
        ))
    → ((q : StoredRecord) → find incoming.key records ≡ some q → P (committed unchanged q, records))
    → ((q : StoredRecord)
        → find incoming.key records ≡ some q
        → P (
          committed updated (candidate_of incoming timestamp),
          assign incoming.key (candidate_of incoming timestamp) records,
        ))
    → P (update_impl incoming force timestamp prepare records)
unfolding update_impl insert_new change changed
update_impl-cases P incoming force timestamp prepare records refuse insert same exchange =
    if-keeps P (is_valueless incoming.content) (λ _. refuse invalid refl)
      (λ _.
        Option-keeps P (find incoming.key records) _ _
          (λ absent.
            if-keeps P (is_zero incoming.content && not force)
              (λ _. refuse ignored_initial_zero refl)
              (λ _.
                if-keeps P (not (emplace incoming.key c records).1) (λ e. absurd (present absent e))
                  (λ _.
                    if-keeps P (not (run_prepare prepare c))
                      (λ _.
                        subst (λ m. P (refused durability_failed, m))
                          (sym (erase-emplace incoming.key c records absent))
                          (refuse durability_failed refl))
                      (λ _. insert absent))))
          (λ q there.
            if-keeps P (same_monitor_value incoming q) (λ _. same q there)
              (λ _.
                if-keeps P (not (run_prepare prepare c)) (λ _. refuse durability_failed refl)
                  (λ _. exchange q there))))
  where
    c : StoredRecord
    c = candidate_of incoming timestamp

    present : find incoming.key records ≡ none → not (emplace incoming.key c records).1 ≡ true → ⊥
    present absent e = let i = emplace-inserts incoming.key c records absent in ground arith

-- The store after an update, at every key: the new record stands at the key of the data when the
-- result says that it changed, and nothing is changed elsewhere or otherwise.
pub update_impl-find :
    (incoming : MonitorData) (force : Bool) (timestamp : ℕ) (prepare : Prepare) (records : Records)
    (other : MonitorKey)
    → find other (update_impl incoming force timestamp prepare records).1 ≡ (
        if changed (update_impl incoming force timestamp prepare records).0
          && key_eq other incoming.key
        then some (candidate_of incoming timestamp)
        else find other records)
unfolding changed
update_impl-find incoming force timestamp prepare records other =
    update_impl-cases
      (λ o. find other o.1 ≡ (
        if changed o.0 && key_eq other incoming.key
        then some (candidate_of incoming timestamp)
        else find other records))
      incoming force timestamp prepare records (λ s e. rw e)
      (λ absent. find-emplace incoming.key other (candidate_of incoming timestamp) records absent)
      (λ q there. refl)
      (λ q there. find-assign incoming.key other (candidate_of incoming timestamp) q records there)

-- An update whose result does not say that it changed, one refused, failed in its prepare or
-- unchanged, leaves the store as it was, entry for entry.
pub update_impl-rollback :
    (incoming : MonitorData) (force : Bool) (timestamp : ℕ) (prepare : Prepare) (records : Records)
    → changed (update_impl incoming force timestamp prepare records).0 ≡ false
    → (update_impl incoming force timestamp prepare records).1 ≡ records
unfolding changed
update_impl-rollback incoming force timestamp prepare records =
    update_impl-cases (λ o. changed o.0 ≡ false → o.1 ≡ records) incoming force timestamp prepare
      records (λ s e _. refl) (λ absent e. absurd cc) (λ q there _. refl) (λ q there e. absurd cc)

-- The record that an update returns is the one that the store then holds at the key of the data.
pub update_impl-copy :
    (incoming : MonitorData) (force : Bool) (timestamp : ℕ) (prepare : Prepare) (records : Records)
    (r : StoredRecord)
    → (update_impl incoming force timestamp prepare records).0.copy ≡ some r
    → find incoming.key (update_impl incoming force timestamp prepare records).1 ≡ some r
update_impl-copy incoming force timestamp prepare records r =
    update_impl-cases (λ o. o.0.copy ≡ some r → find incoming.key o.1 ≡ some r) incoming force
      timestamp prepare records (λ s e k. absurd cc)
      (λ absent k.
        let same = key_eq-reflexive incoming.key in
        let f = find-emplace incoming.key incoming.key c records absent in rw (f, same, k))
      (λ q there k. there ∙ k)
      (λ q there k.
        let same = key_eq-reflexive incoming.key in
        let f = find-assign incoming.key incoming.key c q records there in rw (f, same, k))
  where
    c : StoredRecord
    c = candidate_of incoming timestamp

same_text_refl : (xs : List ℕ) → same_text xs xs ≡ true
unfolding same_text
same_text_refl [] = refl
same_text_refl (x ∷ xs) = rw (==_refl x, same_text_refl xs)

same_value_refl : (v : MonitorValue) → is_valueless v ≡ false → same_value v v ≡ true
unfolding same_value
same_value_refl (numeric n) h = ==_refl n.value
same_value_refl (text xs) h = same_text_refl xs
same_value_refl valueless h = absurd cc

-- Data whose value the store holds already is not taken again.
present-unchanged :
    (incoming : MonitorData) (force : Bool) (timestamp : ℕ) (prepare : Prepare) (records : Records)
    (q : StoredRecord)
    → is_valueless incoming.content ≡ false
    → find incoming.key records ≡ some q
    → same_monitor_value incoming q ≡ true
    → update_impl incoming force timestamp prepare records ≡ (committed unchanged q, records)
unfolding update_impl change
present-unchanged incoming force timestamp prepare records q full there same =
    rw (full, there, same)

-- When an update with a value that is not valueless has changed the store, the same data are
-- unchanged at once afterwards, whatever their force, time and prepare: the result has the record
-- of the first update, with its time, and the store is left as it was.
pub update_impl-again :
    (incoming : MonitorData) (force force' : Bool) (timestamp timestamp' : ℕ)
    (prepare prepare' : Prepare) (records : Records)
    → is_valueless incoming.content ≡ false
    → changed (update_impl incoming force timestamp prepare records).0 ≡ true
    → update_impl incoming force' timestamp' prepare'
        (update_impl incoming force timestamp prepare records).1
      ≡ (
        committed unchanged (candidate_of incoming timestamp),
        (update_impl incoming force timestamp prepare records).1,
      )
unfolding same_monitor_value
update_impl-again incoming force force' timestamp timestamp' prepare prepare' records full h =
    present-unchanged incoming force' timestamp' prepare'
      (update_impl incoming force timestamp prepare records).1 (candidate_of incoming timestamp)
      full
      (update_impl-find incoming force timestamp prepare records incoming.key
        ∙ rw (h, key_eq-reflexive incoming.key))
      (same_value_refl incoming.content full)
